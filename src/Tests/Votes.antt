-- ===== src/Tests/Votes.antt =====
-- A vote at the server of the tests: Alice has voted, and Bob has not.
use rosev_ircsystem.Common.{◌≡◌, refl, true, false, some, [], ◌∷◌, update, arith}
use rosev_ircsystem.Text.{lit, lowercased, tolower}
use rosev_ircsystem.Assoc.{nat_key, lookup}
use rosev_ircsystem.State.{vote_bot, VoteBot, Server}
use rosev_ircsystem.Bots.{bots, virtual_client}
use rosev_ircsystem.Bots.Steady.{bots-IsSteady, virtual_client-IsPlain}
use rosev_ircsystem.VoteBot.{cleared}
use rosev_ircsystem.VoteBot.Votes.{send_irc_message, vote_deadline}
use rosev_ircsystem.VoteBot.Ballot.{voted}
use rosev_ircsystem.VoteBot.Ballot.Preserved.{IsSpeaker, IsFair}
use rosev_ircsystem.VoteBot.Ballot.Departures.{send_irc_message-IsFair}
use rosev_ircsystem.VoteBot.Ballot.Deadline.{vote_deadline-cleared}
use rosev_ircsystem.Tests.{env, server}

abbrev running : VoteBot
running = record {
  abstention_translation = lit "A";
  admin_users = [];
  channel = lit "l";
  current_admin_nickname = lit "A";
  exclude_command_sent = false;
  excluded_nicknames = [];
  options = lit "A" ∷ lit "x" ∷ lit "y" ∷ [];
  question = lit "q";
  time_limit_in_minutes = 5;
  timer = some 5;
  vote_count = 1;
  votes =
      (1, record { has_voted = false; option = 0 })
      ∷ (2, record { has_voted = true; option = 1 })
      ∷ [];
  vote_started = true;
}

abbrev vote_server : Server
vote_server = record server {
  core = record server.core {
    clients = update server.clients 5 (virtual_client vote_bot (lit "Vote"));
  };
  vote_bots = λ b. running;
}

bot-IsSpeaker : IsSpeaker vote_server.core 5
unfolding virtual_client lit lowercased tolower
bot-IsSpeaker = record {
  virtual = refl;
  plain = virtual_client-IsPlain vote_bot (lit "Vote") (ground arith) (ground arith);
}

running-IsFair : IsFair vote_server.core running
unfolding voted lookup
running-IsFair = record {
  ballot = record {
    counted = refl;
    in_range = (omega arith, (omega arith, tt));
    distinct = (refl, (refl, tt));
    pending = λ n. omega arith;
  };
  electors = (refl, (refl, tt));
}

send_irc_message-IsFair_example :
    IsFair vote_server.core
      ((send_irc_message env (bots 3 env) 5 (lit ":B!b@network PART #L") vote_server).vote_bots 5)
send_irc_message-IsFair_example =
    send_irc_message-IsFair env (bots 3 env) (bots-IsSteady 3 env) 5 (lit ":B!b@network PART #L")
      vote_server bot-IsSpeaker running-IsFair

vote_deadline-cleared_example :
    (vote_deadline env (bots 3 env) 5 vote_server).vote_bots 5 ≡ cleared running
vote_deadline-cleared_example =
    vote_deadline-cleared env (bots 3 env) (bots-IsSteady 3 env) 5 vote_server bot-IsSpeaker
      running-IsFair.electors running-IsFair.ballot.in_range
