-- ===== src/Tests/Streams.antt =====
-- The theorems on input, output and votes at short inputs.
use rosev_ircsystem.Common.{
  ℕ, zero, suc, ◌≡◌, refl, ◌≢◌, ◌↔◌, inl, Bool, true, false, none, some, List, [], ◌∷◌, ◌++◌,
  length, arith, ◌≤◌, ◌<◌,
}
use rosev_ircsystem.Text.{Text, uppercased, lowercased, tolower}
use rosev_ircsystem.State.{NetworkState, VoteParameters}
use rosev_ircsystem.Framing.{scan, scan_next, scan_chunks}
use rosev_ircsystem.Framing.Lines.{IsPlain, received, scan_line, scan_split_line, scan_long_line}
use rosev_ircsystem.Message.{parse_message}
use rosev_ircsystem.Message.Printed.{
  IsMiddle, print_message, parse_message-print_message, parse_message-prefix,
}
use rosev_ircsystem.Outbox.{
  push_message, transcript, sent_buffers, IsFlowing, transcript-push_message, sent-sent_buffers,
  push_message-IsFlowing,
}
use rosev_ircsystem.Reply.{rpl_topic, reply_message, has_surplus, numeric_reply}
use rosev_ircsystem.Reply.Complete.{arity, numeric_reply-arity}
use rosev_ircsystem.Server.Connection.{new_network_state, new_client}
use rosev_ircsystem.Server.Rooms.{channel_names}
use rosev_ircsystem.Server.Rooms.Names.{print_names, channel_names-print_names}
use rosev_ircsystem.Tests.{env}
use rosev_ircsystem.VoteBot.Tally.{tally}
use rosev_ircsystem.VoteBot.Tally.Counted.{result_at, votes_for, tally-result}

-- A server that keeps the messages.
abbrev receive : Text → List Text → List Text
receive m ms = ms ++ m ∷ []

abbrev always : List Text → Bool
always ms = true

abbrev clear : List Text → List Text
clear ms = []

-- "HI" CR LF "Y", and then "O" LF
scan_chunks_example :
    scan_next receive always clear
      (scan receive always clear false [] (72 ∷ 73 ∷ 13 ∷ 10 ∷ 89 ∷ []) [])
      (79 ∷ 10 ∷ [])
    ≡ scan receive always clear false [] (72 ∷ 73 ∷ 13 ∷ 10 ∷ 89 ∷ 79 ∷ 10 ∷ []) []
scan_chunks_example =
    scan_chunks receive always clear [] (72 ∷ 73 ∷ 13 ∷ 10 ∷ 89 ∷ []) (79 ∷ 10 ∷ []) []
      (omega arith, (omega arith, (omega arith, (omega arith, (omega arith, tt))))) refl

abbrev hi : Text
hi = 72 ∷ 73 ∷ []

hi-IsPlain : IsPlain hi
hi-IsPlain = (omega arith, (omega arith, tt))

scan_line_example :
    scan receive always clear false [] (hi ++ 13 ∷ 10 ∷ []) [] ≡ received always (receive hi [])
scan_line_example = scan_line receive always clear hi [] hi-IsPlain (omega arith)

scan_split_line_example :
    scan_next receive always clear (scan receive always clear false [] (hi ++ 13 ∷ []) []) (10 ∷ [])
    ≡ received always (receive (hi ++ 13 ∷ []) [])
scan_split_line_example = scan_split_line receive always clear hi [] hi-IsPlain (omega arith)

unfoldable repeated : ℕ → Text
repeated zero = []
repeated (suc n) = 65 ∷ repeated n

repeated-IsPlain : (n : ℕ) → IsPlain (repeated n)
unfolding repeated
repeated-IsPlain zero = tt
repeated-IsPlain (suc n) = (omega arith, repeated-IsPlain n)

length-repeated : (n : ℕ) → length (repeated n) ≡ n
unfolding repeated
length-repeated zero = refl
length-repeated (suc n) = omega (arith, length-repeated n)

scan_long_line_example :
    scan receive always clear false [] (repeated 511 ++ 13 ∷ 10 ∷ []) (hi ∷ []) ≡ ([], none)
scan_long_line_example =
    scan_long_line receive always clear (repeated 511) [] (hi ∷ []) (repeated-IsPlain 511)
      (omega (arith, length-repeated 511))

hi-IsMiddle : IsMiddle hi
hi-IsMiddle = ((omega arith, (omega arith, tt)), refl)

parse_message-print_message_example :
    parse_message (print_message hi (hi ∷ []) (58 ∷ 32 ∷ []))
    ≡ some (uppercased hi, (hi ∷ []) ++ (58 ∷ 32 ∷ []) ∷ [])
parse_message-print_message_example =
    parse_message-print_message hi (hi ∷ []) (58 ∷ 32 ∷ []) hi-IsMiddle (hi-IsMiddle, tt)

parse_message-prefix_example :
    parse_message (58 ∷ hi ++ 32 ∷ print_message hi (hi ∷ []) (58 ∷ 32 ∷ []))
    ≡ some (uppercased hi, (hi ∷ []) ++ (58 ∷ 32 ∷ []) ∷ [])
parse_message-prefix_example =
    parse_message-prefix hi hi (hi ∷ []) (58 ∷ 32 ∷ []) (omega arith, (omega arith, tt)) hi-IsMiddle
      (hi-IsMiddle, tt)

-- Two messages wait while a third one is being sent.
abbrev busy : NetworkState
busy = record (new_network_state false) {
  send_queue = (65 ∷ 13 ∷ 10 ∷ []) ∷ (66 ∷ 13 ∷ 10 ∷ []) ∷ [];
  send_buffer = 67 ∷ 13 ∷ 10 ∷ [];
  send_buffer_size = 3;
  sent = (67 ∷ 13 ∷ 10 ∷ []) ∷ [];
}

transcript-push_message_example :
    transcript (push_message hi busy) ≡ transcript busy ++ (hi ++ 13 ∷ 10 ∷ []) ∷ []
transcript-push_message_example = transcript-push_message hi busy

sent-sent_buffers_example : (sent_buffers 2 busy).sent ≡ transcript busy
sent-sent_buffers_example = sent-sent_buffers 2 busy (omega arith)

busy-IsFlowing : IsFlowing busy
busy-IsFlowing = record { idle = inl (omega arith); filled = (omega arith, (omega arith, tt)) }

push_message-IsFlowing_example : IsFlowing (push_message hi busy)
push_message-IsFlowing_example = push_message-IsFlowing hi busy busy-IsFlowing

abbrev votes : List (ℕ × VoteParameters)
votes =
    (1, record { has_voted = true; option = 2 })
    ∷ (2, record { has_voted = false; option = 0 })
    ∷ (4, record { has_voted = true; option = 2 })
    ∷ []

tally-result_example :
    (r : List ℕ) × (tally 3 votes ≡ some r)
    × (length r ≡ 3)
    × ((j : ℕ) → result_at r j ≡ votes_for j votes)
tally-result_example = tally-result 3 votes (omega arith, (omega arith, (omega arith, tt)))

-- "#l,#s"
channel_names-print_names_example :
    channel_names (print_names (108 ∷ []) ((115 ∷ []) ∷ [])) ≡ (108 ∷ []) ∷ (115 ∷ []) ∷ []
unfolding lowercased tolower
channel_names-print_names_example =
    channel_names-print_names (108 ∷ []) ((115 ∷ []) ∷ []) ((omega arith, tt), refl)
      (((omega arith, tt), refl), tt)

numeric_reply-arity_example :
    ((numeric_reply env new_client rpl_topic ((108 ∷ []) ∷ (116 ∷ []) ∷ []) ≢ none)
      ↔ (arity rpl_topic ≤ 2))
    × ((has_surplus (reply_message env rpl_topic) ((108 ∷ []) ∷ (116 ∷ []) ∷ []) ≡ true)
        ↔ (arity rpl_topic < 2))
numeric_reply-arity_example =
    numeric_reply-arity env new_client rpl_topic ((108 ∷ []) ∷ (116 ∷ []) ∷ [])
