-- ===== src/LogBot.antt =====
-- CLogBot.cpp: the log of what happens in the channels. `self` is the address of the LogBot object.
pub mod Quiet
use rosev_ircsystem.Common.{
  ℕ, Bool, true, false, not, Option, none, some, List, [], ◌∷◌, ◌++◌, ◌==◌, if◌then◌else◌,
}
use rosev_ircsystem.Text.{Text, lit, lowercased, text_eq}
use rosev_ircsystem.Assoc.{nat_key, text_key, lookup, assign, has_key}
use rosev_ircsystem.State.{
  ClientStatus, no_status, voice, Server, Environment, Virtual, with_log_bot,
}
use rosev_ircsystem.Relay.{parse_relay, from_server, malformed, from_client, Relay}
use rosev_ircsystem.Send.{undefined_behaviour}
use rosev_ircsystem.Server.Rooms.{receive_message_join}

-- One line more in the stream of the channel.
unfoldable pub write_log : Text → Text → ℕ → Server → Server
write_log key line = with_log_bot λ b. record b {
  channel_streams = elim (lookup key b.channel_streams) [
    | none ↦ b.channel_streams
    | some lines ↦ assign key (lines ++ line ∷ []) b.channel_streams
  ];
}

-- The name behind the hash of a channel parameter; `none` fails an assertion.
unfoldable pub hash_name : Text → Option Text
hash_name [] = none
hash_name (c ∷ name) = if c == 35 then some name else none

voice_suffix : ClientStatus → Text
voice_suffix voice = lit " with voice status"
voice_suffix no_status = []

module _ (env : Environment) (self : ℕ) where
  abbrev log_of : Server → List (Text × List Text)
  log_of s = (s.log_bots self).channel_streams

  log_join : ℕ → Text → Text → Server → Server
  unfolding voice_suffix
  log_join c channel key s =
      if not (has_key key (log_of s)) then s else elim (lookup key s.channels) [
        | none ↦ undefined_behaviour s
        | some ch ↦ elim (lookup c ch.clients) [
          | none ↦ undefined_behaviour s
          | some st ↦
              write_log key
                (env.log_timestamp
                  ++ (lit " "
                      ++ ((s.clients c).nickname
                          ++ (lit " has joined " ++ (channel ++ (voice_suffix st ++ (10 ∷ [])))))))
                self s
        ]
      ]

  -- CLogBot::_LogMessage_JOIN
  unfoldable pub log_message_join : ℕ → List Text → Server → Server
  unfolding log_join
  log_message_join c (channel ∷ []) s = elim (hash_name channel) [
    | none ↦ undefined_behaviour s
    | some name ↦ log_join c channel (lowercased name) s
  ]
  log_message_join c _ s = undefined_behaviour s

  -- CLogBot::_LogMessage_PART
  unfoldable pub log_message_part : ℕ → List Text → Server → Server
  log_message_part c (channel ∷ []) s = elim (hash_name channel) [
    | none ↦ undefined_behaviour s
    | some name ↦
        write_log (lowercased name)
          (env.log_timestamp
            ++ (lit " "
                ++ ((s.clients c).nickname ++ (lit " has left " ++ (channel ++ (10 ∷ []))))))
          self s
  ]
  log_message_part c _ s = undefined_behaviour s

  -- CLogBot::_LogMessage_PRIVMSG
  unfoldable pub log_message_privmsg : ℕ → List Text → Server → Server
  log_message_privmsg c (channel ∷ message ∷ []) s = elim (hash_name channel) [
    | none ↦ undefined_behaviour s
    | some name ↦
        write_log (lowercased name)
          (env.log_timestamp
            ++ (lit " <" ++ ((s.clients c).nickname ++ (lit "> " ++ (message ++ (10 ∷ []))))))
          self s
  ]
  log_message_privmsg c _ s = undefined_behaviour s

  -- The loop over the logged channels.
  log_quit : ℕ → Text → List (Text × List Text) → Server → Server
  log_quit c line [] s = s
  log_quit c line ((key, _) ∷ streams) s = log_quit c line streams (
      if not (has_key key s.channels)
      then undefined_behaviour s
      else if has_key key (s.clients c).joined_channels
      then write_log key line self s
      else s)

  -- CLogBot::_LogMessage_QUIT
  unfoldable pub log_message_quit : ℕ → List Text → Server → Server
  unfolding log_quit
  log_message_quit c (reason ∷ []) s =
      log_quit c
        (env.log_timestamp
          ++ (lit " "
              ++ ((s.clients c).nickname
                  ++ (lit " has quit the server (" ++ (reason ++ (lit ")" ++ (10 ∷ [])))))))
        (log_of s) s
  log_message_quit c _ s = undefined_behaviour s

  unfoldable pub command_handlers : List (Text × (ℕ → List Text → Server → Server))
  command_handlers =
      (lit "JOIN", log_message_join)
      ∷ (lit "PART", log_message_part)
      ∷ (lit "PRIVMSG", log_message_privmsg)
      ∷ (lit "QUIT", log_message_quit)
      ∷ []

  log_relay : Relay → Server → Server
  log_relay from_server s = s
  log_relay malformed s = undefined_behaviour s
  log_relay (from_client user command parameters) s = elim (lookup user s.nicknames) [
    | none ↦ undefined_behaviour s
    | some c ↦ elim (lookup command command_handlers) [
      | none ↦ s
      | some handler ↦ handler c parameters s
    ]
  ]

  -- CLogBot::SendIRCMessage
  unfoldable pub send_irc_message : Text → Server → Server
  unfolding log_relay
  send_irc_message message = log_relay (parse_relay message)

  -- CLogBot::PostInit
  unfoldable pub join_logged : Virtual → List (Text × List Text) → Server → Server
  join_logged virt [] s = s
  join_logged virt ((key, _) ∷ streams) s =
      join_logged virt streams (receive_message_join env virt self (key ∷ []) s)
