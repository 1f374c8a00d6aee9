-- ===== src/Server/Rooms/Induction.antt =====
-- The induction principle of PART and of JOIN: what they do to the server's maps is that the client
-- leaves channels that are there and enters channels that admit it. NAMES and TOPIC change nothing.
use rosev_ircsystem.Common.{
  ℕ, ◌≡◌, refl, sym, ap, subst, ◌∙◌, inl, inr, Bool, true, false, not, ◌&&◌, ◌||◌, none, some, List,
  [], ◌∷◌, arith, if◌then◌else◌, if_elim, Bool-cases, Option-cases, is_empty,
}
use rosev_ircsystem.Text.{Text, lit, text_eq}
use rosev_ircsystem.Assoc.{nat_key, text_key, lookup, has_key, Set}
use rosev_ircsystem.State.{
  ClientStatus, no_status, voice, Channel, Core, Server, Environment, Virtual, with_client,
  with_channel_map,
}
use rosev_ircsystem.Reply.{Reply}
use rosev_ircsystem.Send.{
  ◌▸◌, is_registered, is_network_client, is_network_kind, set_channel, add_client, remove_client,
  add_joined_channel, remove_joined_channel, send_numeric_reply, send_notice,
}
use rosev_ircsystem.Send.Core.{IsQuiet, core-send_all, core-send_numeric_reply, core-send_notice}
use rosev_ircsystem.Server.Membership.{leave, enter}
use rosev_ircsystem.Server.Rooms.{
  send_topic, receive_message_topic, send_nicknames, send_names, receive_message_names,
  part_channel, part_channels, receive_message_part, leave_channel, leave_channels, show_mode,
  enter_channel, join_channel, join_channels, has_to_identify, receive_message_join, channel_names,
}

-- Who may join a channel: virtual clients, its allowed users, and everybody if it has observers.
unfoldable pub admits : Core → ℕ → Channel → Bool
admits k c channel =
    not (is_network_kind (k.clients c).kind)
    || has_key (k.clients c).nickname_lowercased channel.allowed_users
    || channel.allow_observers

leave_core :
    (c : ℕ) (key : Text) (channel : Channel) (s : Server)
    → (s ▸ set_channel key (remove_client c channel) ▸ remove_joined_channel key c).core
      ≡ leave c key channel s.core
unfolding set_channel remove_client remove_joined_channel with_client with_channel_map leave
leave_core c key channel s = refl

enter_core :
    (c : ℕ) (key : Text) (st : ClientStatus) (channel : Channel) (s : Server)
    → (s ▸ set_channel key (add_client c st channel) ▸ add_joined_channel key c).core
      ≡ enter c key st channel s.core
unfolding set_channel add_client add_joined_channel with_client with_channel_map enter
enter_core c key st channel s = refl

module _ (env : Environment) (virt : Virtual) (quiet : IsQuiet virt) where
  core_reply :
      (c : ℕ) (r : Reply) (args : List Text) (s : Server)
      → (send_numeric_reply env virt c r args s).core ≡ s.core
  core_reply = core-send_numeric_reply env virt quiet

  core-send_topic : (c : ℕ) (key : Text) (s : Server) → (send_topic env virt c key s).core ≡ s.core
  unfolding send_topic
  core-send_topic c key s = elim (Option-cases (lookup key s.channels)) [
    | inl e ↦ rw (e, send_topic) (core_reply c _ _ s)
    | inr (channel, e) ↦
        rw (e, send_topic)
          (if_elim (λ (t : Server). t.core ≡ s.core) (is_empty channel.topic) (core_reply c _ _ s)
            (core_reply c _ _ s))
  ]

  pub core-receive_message_topic :
      (c : ℕ) (parameters : List Text) (s : Server)
      → (receive_message_topic env virt c parameters s).core ≡ s.core
  unfolding receive_message_topic
  core-receive_message_topic c [] s =
      if_elim (λ (t : Server). t.core ≡ s.core) (not (is_registered c s)) refl (core_reply c _ _ s)
  core-receive_message_topic c (name ∷ []) s =
      if_elim (λ (t : Server). t.core ≡ s.core) (not (is_registered c s)) refl
        (core-send_topic c _ s)
  core-receive_message_topic c (name ∷ _ ∷ _) s = refl

  core-send_nicknames :
      (c : ℕ) (key : Text) (s : Server) → (send_nicknames env virt c key s).core ≡ s.core
  unfolding send_nicknames
  core-send_nicknames c key s = elim (Option-cases (lookup key s.channels)) [
    | inl e ↦ rw (send_nicknames, e)
    | inr (channel, e) ↦ rw (send_nicknames, e) (core_reply c _ _ s)
  ]

  core-send_names :
      (c : ℕ) (keys : List Text) (s : Server) → (send_names env virt c keys s).core ≡ s.core
  unfolding send_names
  core-send_names c [] s = refl
  core-send_names c (key ∷ keys) s =
      core-send_names c keys _ ∙ core_reply c _ _ _ ∙ core-send_nicknames c key s

  pub core-receive_message_names :
      (c : ℕ) (parameters : List Text) (s : Server)
      → (receive_message_names env virt c parameters s).core ≡ s.core
  unfolding receive_message_names
  core-receive_message_names c [] s = refl
  core-receive_message_names c (name ∷ _) s =
      if_elim (λ (t : Server). t.core ≡ s.core) (not (is_registered c s)) refl
        (core-send_names c _ s)

  core-show_mode :
      (voiced : Bool) (members : List (ℕ × ClientStatus)) (m : Text) (s : Server)
      → (show_mode env virt voiced members m s).core ≡ s.core
  unfolding show_mode
  core-show_mode voiced members m s =
      if_elim (λ (t : Server). t.core ≡ s.core) voiced (core-send_all env virt quiet members m s)
        refl

  pub core-enter_channel :
      (c : ℕ) (key : Text) (channel : Channel) (voiced : Bool) (s : Server)
      → (enter_channel env virt c key channel voiced s).core
        ≡ enter c key (if voiced then voice else no_status) channel s.core
  unfolding enter_channel
  core-enter_channel c key channel voiced s =
      core-receive_message_names c _ _
      ∙ core-receive_message_topic c _ _
      ∙ core-show_mode voiced _ _ _
      ∙ core-send_all env virt quiet _ _ _
      ∙ enter_core c key (if voiced then voice else no_status) channel s

-- A property of the server's maps that holds whenever the client leaves a channel that is there.
module _ (env : Environment) (virt : Virtual) (quiet : IsQuiet virt) (c : ℕ) (P : Core → Type 0)
    (leaving : (key : Text) (channel : Channel) (k : Core)
      → lookup key k.channels ≡ some channel
      → P k
      → P (leave c key channel k)) where
  part_channel_kept :
      (key : Text) (s : Server) → P s.core → P (part_channel env virt c key s).1.core
  unfolding part_channel
  part_channel_kept key s r = elim (Option-cases (lookup key s.channels)) [
    | inl e ↦ rw (e, part_channel) (subst P (sym (core_reply env virt quiet c _ _ s)) r)
    | inr (channel, e) ↦
        rw (e, part_channel)
          (if_elim (λ (t : Bool × Server). P t.1.core) (not (has_key c channel.clients))
            (subst P (sym (core_reply env virt quiet c _ _ s)) r)
            (subst P
              (sym (
                leave_core c key channel _
                ∙ ap (leave c key channel) (core-send_all env virt quiet channel.clients _ s)))
              (leaving key channel s.core e r)))
  ]

  part_channels_kept :
      (keys : List Text) (s : Server) → P s.core → P (part_channels env virt c keys s).core
  unfolding part_channels
  part_channels_kept [] s r = r
  part_channels_kept (key ∷ keys) s r =
      if_elim (λ (t : Server). P t.core) (part_channel env virt c key s).0
        (part_channels_kept keys (part_channel env virt c key s).1 (part_channel_kept key s r))
        (part_channel_kept key s r)

  pub receive_message_part_kept :
      (parameters : List Text) (s : Server)
      → P s.core
      → P (receive_message_part env virt c parameters s).core
  unfolding receive_message_part
  receive_message_part_kept [] s r =
      if_elim (λ (t : Server). P t.core) (not (is_registered c s)) r
        (subst P (sym (core_reply env virt quiet c _ _ s)) r)
  receive_message_part_kept (name ∷ _) s r =
      if_elim (λ (t : Server). P t.core) (not (is_registered c s)) r
        (part_channels_kept (channel_names name) s r)

  leave_channel_kept :
      (key : Text) (s : Server) → P s.core → P (leave_channel env virt c key s).core
  unfolding leave_channel
  leave_channel_kept key s r = elim (Option-cases (lookup key s.channels)) [
    | inl e ↦ rw (leave_channel, e) r
    | inr (channel, e) ↦ rw (leave_channel, e) (receive_message_part_kept _ s r)
  ]

  leave_channels_kept :
      (joined : Set Text) (s : Server) → P s.core → P (leave_channels env virt c joined s).core
  unfolding leave_channels
  leave_channels_kept [] s r = r
  leave_channels_kept ((key, _) ∷ joined) s r =
      leave_channels_kept joined (leave_channel env virt c key s) (leave_channel_kept key s r)

  -- And whenever the client enters a channel that is there and admits it.
  module _
      (entering : (key : Text) (st : ClientStatus) (channel : Channel) (k : Core)
        → lookup key k.channels ≡ some channel
        → admits k c channel ≡ true
        → P k
        → P (enter c key st channel k)) where
    admitted :
        (channel : Channel) (s : Server)
        → admits s.core c channel ≡ false
        → (not (
              not (is_network_client c s)
              || has_key (s.clients c).nickname_lowercased channel.allowed_users)
            && not channel.allow_observers)
          ≡ true
    unfolding admits
    admitted channel s e = ground (arith, e)

    join_channel_kept :
        (key : Text) (s : Server) → P s.core → P (join_channel env virt c key s).core
    unfolding join_channel
    join_channel_kept key s r = elim (Option-cases (lookup key s.channels)) [
      | inl e ↦ rw (join_channel, e) (subst P (sym (core_reply env virt quiet c _ _ s)) r)
      | inr (channel, e) ↦ elim (Bool-cases (admits s.core c channel)) [
        | inl a ↦
            rw (join_channel, e)
              (if_elim (λ (t : Server). P t.core) _
                (subst P (sym (core-send_notice env virt quiet c _ _ s)) r)
                (if_elim (λ (t : Server). P t.core) (has_key c channel.clients) r
                  (subst P (sym (core-enter_channel env virt quiet c key channel _ s))
                    (entering key _ channel s.core e a r))))
        | inr a ↦
            rw (join_channel, e, admitted channel s a)
              (subst P (sym (core-send_notice env virt quiet c _ _ s)) r)
      ]
    ]

    join_channels_kept :
        (keys : List Text) (s : Server) → P s.core → P (join_channels env virt c keys s).core
    unfolding join_channels
    join_channels_kept [] s r = r
    join_channels_kept (key ∷ keys) s r =
        join_channels_kept keys (join_channel env virt c key s) (join_channel_kept key s r)

    join_from_kept :
        (keys : List Text) (t : Server)
        → P t.core
        → P
            (if has_to_identify env c t
              then send_notice env virt c none (lit "Please identify first!") t
              else join_channels env virt c keys t).core
    join_from_kept keys t r =
        if_elim (λ (t : Server). P t.core) (has_to_identify env c t)
          (subst P (sym (core-send_notice env virt quiet c _ _ t)) r) (join_channels_kept keys t r)

    pub receive_message_join_kept :
        (parameters : List Text) (s : Server)
        → P s.core
        → P (receive_message_join env virt c parameters s).core
    unfolding receive_message_join
    receive_message_join_kept [] s r =
        if_elim (λ (t : Server). P t.core) (not (is_registered c s)) r
          (subst P (sym (core_reply env virt quiet c _ _ s)) r)
    receive_message_join_kept (channels ∷ _) s r =
        if_elim (λ (t : Server). P t.core) (not (is_registered c s)) r
          (join_from_kept (channel_names channels) _ (
            if_elim (λ (t : Server). P t.core) (text_eq channels (lit "0"))
              (leave_channels_kept (s.clients c).joined_channels s r) r))
