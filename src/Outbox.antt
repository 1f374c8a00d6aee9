-- ===== src/Outbox.antt =====
-- The send queue of CNetworkClient.cpp: SendIRCMessage, _ProcessSendQueue and _HandleSend.
use rosev_ircsystem.Common.{
  ℕ, zero, suc, ◌-◌, ◌≤◌, ◌≡◌, refl, sym, ◌∙◌, ◌≢◌, ◌⊎◌, inl, inr, List, [], ◌∷◌, ◌++◌, append-nil,
  append_assoc, arith, ◌==◌, if◌then◌else◌, length, length-append, All, Bool-cases,
}
use rosev_ircsystem.Text.{Text}
use rosev_ircsystem.State.{NetworkState}

abbrev crlf : Text
crlf = 13 ∷ 10 ∷ []

-- Pops the next buffer and hands it to _Send, if none is being sent.
send_front : List Text → NetworkState → NetworkState
send_front [] n = n
send_front (front ∷ rest) n =
    if n.send_buffer_size == 0
    then record n {
      send_queue = rest;
      send_buffer = front;
      send_buffer_size = length front;
      sent = n.sent ++ front ∷ [];
    }
    else n

unfoldable pub process_send_queue : NetworkState → NetworkState
unfolding send_front
process_send_queue n = send_front n.send_queue n

-- CNetworkClient::SendIRCMessage
unfoldable pub push_message : Text → NetworkState → NetworkState
unfolding process_send_queue
push_message message n =
    process_send_queue (record n { send_queue = n.send_queue ++ (message ++ crlf) ∷ [] })

-- CNetworkClient::_HandleSend, when the write succeeded.
unfoldable pub sent_buffer : NetworkState → NetworkState
unfolding process_send_queue
sent_buffer n = process_send_queue (record n { send_buffer_size = 0 })

-- Every message that was given to SendIRCMessage, in order.
unfoldable pub transcript : NetworkState → List Text
transcript n = n.sent ++ n.send_queue

-- Nothing waits while the connection is idle, and every buffer has at least its CRLF.
pub record IsFlowing (n : NetworkState) : Type 0 where
  pub idle : (n.send_buffer_size ≢ 0) ⊎ (n.send_queue ≡ [])
  pub filled : All (λ b. 2 ≤ length b) n.send_queue

transcript-send_front :
    (q : List Text) (n : NetworkState)
    → n.send_queue ≡ q
    → transcript (send_front q n) ≡ transcript n
unfolding send_front transcript
transcript-send_front [] n e = refl
transcript-send_front (front ∷ rest) n e = ground (arith, append_assoc n.sent (front ∷ []) rest)

pub transcript-process_send_queue :
    (n : NetworkState) → transcript (process_send_queue n) ≡ transcript n
unfolding process_send_queue
transcript-process_send_queue n = transcript-send_front n.send_queue n refl

-- SendIRCMessage appends the message and its CRLF to what the client is sent, whatever is being sent.
pub transcript-push_message :
    (message : Text) (n : NetworkState)
    → transcript (push_message message n) ≡ transcript n ++ (message ++ 13 ∷ 10 ∷ []) ∷ []
unfolding push_message transcript
transcript-push_message message n =
    transcript-process_send_queue (record n { send_queue = n.send_queue ++ (message ++ crlf) ∷ [] })
    ∙ sym (append_assoc n.sent n.send_queue _)

-- _HandleSend loses, repeats and reorders nothing.
pub transcript-sent_buffer : (n : NetworkState) → transcript (sent_buffer n) ≡ transcript n
unfolding sent_buffer transcript
transcript-sent_buffer n = transcript-process_send_queue (record n { send_buffer_size = 0 })

send_front-IsFlowing :
    (q : List Text) (n : NetworkState)
    → n.send_queue ≡ q
    → All (λ b. 2 ≤ length b) q
    → IsFlowing (send_front q n)
unfolding send_front
send_front-IsFlowing [] n e h = record { idle = inr e; filled = rw e tt }
send_front-IsFlowing (front ∷ rest) n e h = elim (Bool-cases (n.send_buffer_size == 0)) [
  | inl free ↦ rw free (record { idle = inl (omega arith); filled = h.1 })
  | inr busy ↦ rw busy (record { idle = inl (ground arith); filled = rw e h })
]

All-snoc :
    (q : List Text) (b : Text)
    → All (λ b. 2 ≤ length b) q
    → 2 ≤ length b
    → All (λ b. 2 ≤ length b) (q ++ b ∷ [])
All-snoc [] b h k = (k, tt)
All-snoc (a ∷ q) b h k = (h.0, All-snoc q b h.1 k)

-- If nothing waits unless a buffer is being sent, and every waiting buffer has at least two bytes,
-- this is also so after SendIRCMessage.
pub push_message-IsFlowing :
    (message : Text) (n : NetworkState) → IsFlowing n → IsFlowing (push_message message n)
unfolding push_message
push_message-IsFlowing message n h =
    send_front-IsFlowing (n.send_queue ++ (message ++ crlf) ∷ [])
      (record n { send_queue = n.send_queue ++ (message ++ crlf) ∷ [] }) refl
      (All-snoc n.send_queue (message ++ crlf) h.filled (omega (arith, length-append message crlf)))

pub sent_buffer-IsFlowing : (n : NetworkState) → IsFlowing n → IsFlowing (sent_buffer n)
unfolding sent_buffer
sent_buffer-IsFlowing n h =
    send_front-IsFlowing n.send_queue (record n { send_buffer_size = 0 }) refl h.filled

-- The writes complete, one after the other.
pub sent_buffers : ℕ → NetworkState → NetworkState
sent_buffers zero n = n
sent_buffers (suc k) n = sent_buffers k (sent_buffer n)

send_queue-sent_buffer :
    (q : List Text) (n : NetworkState)
    → n.send_queue ≡ q
    → length (sent_buffer n).send_queue ≡ length q - 1
unfolding sent_buffer
send_queue-sent_buffer [] n e = rw e
send_queue-sent_buffer (front ∷ rest) n e = rw e (omega arith)

no_queue :
    (n : NetworkState) (q : List Text) → n.send_queue ≡ q → length q ≤ 0 → n.sent ≡ transcript n
unfolding transcript
no_queue n [] e h = rw (e, append-nil)
no_queue n (b ∷ q) e h = absurd (omega arith)

-- Once as many writes as there are waiting buffers have completed, every message has been handed to
-- the socket, in the order of the SendIRCMessage calls.
pub sent-sent_buffers :
    (k : ℕ) (n : NetworkState) → length n.send_queue ≤ k → (sent_buffers k n).sent ≡ transcript n
unfolding sent_buffers
sent-sent_buffers zero n h = no_queue n n.send_queue refl h
sent-sent_buffers (suc k) n h =
    sent-sent_buffers k (sent_buffer n) (omega (arith, send_queue-sent_buffer n.send_queue n refl))
    ∙ transcript-sent_buffer n
