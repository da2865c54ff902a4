-- ===== src/Client/Setup/Faults.antt =====
-- The fault counter of `setup` in AAClient/src/AaCommunicator.cpp.
use aacs.Prelude.{
  ℕ, zero, suc, ◌+◌, ◌≤◌, ◌<◌, ◌≡◌, refl, ◌∙◌, List, [], ◌∷◌, ◌++◌, replicate, lt→ltb, arith,
}
use aacs.Proto.{Proto}
use aacs.Frame.{Message}
use aacs.Client.Setup.{
  Client, done, Arrival, message_arrives, fault, given_up, handle_message, message_loop,
}

message_loop-faults :
    (proto : Proto) (k n : ℕ) (later : List Arrival) (c : Client)
    → n + k ≤ 30
    → message_loop proto (replicate k fault ++ later) n c ≡ message_loop proto later (n + k) c
unfolding message_loop
message_loop-faults proto zero n later c h = let e : n + 0 ≡ n = omega arith in rw e refl
message_loop-faults proto (suc k) n later c h =
    let e : n + suc k ≡ n + 1 + k = omega arith in
    rw (lt→ltb n 30 (omega arith), e) (message_loop-faults proto k (n + 1) later c (omega arith))

message_loop-given_up :
    (proto : Proto) (later : List Arrival) (c : Client)
    → message_loop proto later 30 c ≡ (given_up, c)
unfolding message_loop
message_loop-given_up proto [] c = refl
message_loop-given_up proto (fault ∷ later) c = refl
message_loop-given_up proto (message_arrives m ∷ later) c = refl

-- Up to 29 faults in a row leave the client as it was, and a message that is then handled resets
-- the count: the loop goes on as at its start.
pub faults_forgiven :
    (proto : Proto) (k : ℕ) (m : Message) (later : List Arrival) (c c1 : Client)
    → k < 30
    → handle_message proto m c ≡ (done, c1)
    → message_loop proto (replicate k fault ++ message_arrives m ∷ later) 0 c
      ≡ message_loop proto later 0 c1
unfolding message_loop
faults_forgiven proto k m later c c1 h e =
    message_loop-faults proto k 0 (message_arrives m ∷ later) c (omega arith)
    ∙ rw (lt→ltb (0 + k) 30 (omega arith), e) refl

-- After 30 faults in a row the loop ends, whatever would arrive later, with the client as it was.
pub faults_give_up :
    (proto : Proto) (later : List Arrival) (c : Client)
    → message_loop proto (replicate 30 fault ++ later) 0 c ≡ (given_up, c)
faults_give_up proto later c =
    message_loop-faults proto 30 0 later c (omega arith) ∙ message_loop-given_up proto later c
