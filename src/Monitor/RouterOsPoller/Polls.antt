-- ===== src/Monitor/RouterOsPoller/Polls.antt =====
-- Whole polls of a RouterOS device: what it answers, and what the snapshots are.
use whatunga.Prelude.{◌≡◌, refl, true, List, [], ◌∷◌, ◌++◌, map, Str, All, codes, ◌⊎◌, inl, inr}
use whatunga.RouterOs.{Result, ok, ◌>>=◌}
use whatunga.RouterOs.Protocol.{sentence_bytes}
use whatunga.RouterOs.Sentence.{IsWord}
use whatunga.RouterOs.Client.{done, trap, parse_attribute_words}
use whatunga.RouterOs.Reply.{re_bytes, done_bytes, trap_bytes}
use whatunga.RouterOs.Run.{run-done, run-trap}
use whatunga.Monitor.{Time, Snapshot, kind_router_os}
use whatunga.Monitor.RouterOsPoller.{
  RouterOsPoller, Unexpected, system_reply, status_of_row, interface_of_row, system_status,
  interfaces, snapshot,
}

abbrev pub resource_command : Str
resource_command = sentence_bytes (codes "/system/resource/print" ∷ [])

abbrev pub interface_command : Str
interface_command = sentence_bytes (codes "/interface/print" ∷ [])

-- A poller of an open connection.
abbrev pub open_poller : Str → Str → Str → RouterOsPoller
open_poller device sent incoming = record {
  device = device;
  client = record { is_open = true; sent = sent; incoming = incoming };
}

-- The answer to a command: a row for each "!re" sentence, and "!done".
abbrev pub answer : List (List Str) → Str → Str
answer rows rest = re_bytes rows ++ (done_bytes ++ rest)

-- The snapshot that two answers make.
abbrev pub snapshot_of_rows : Str → Time → List Str → List (List Str) → Snapshot
snapshot_of_rows device now first table = record {
  device = device;
  kind = kind_router_os;
  system = status_of_row now (parse_attribute_words first);
  interfaces = map interface_of_row (map parse_attribute_words table);
}

module _ (device sent : Str) (now : Time) where
  -- A poll of a device that answers the first command with at least one row and the second with any
  -- number, in words that are not empty and shorter than 2 ^ 32 bytes, sends both commands, takes
  -- the status from the first row and an interface from each row of the second answer, in order, and
  -- leaves what follows for the next poll.
  pub snapshot-answer :
      (first : List Str) (others table : List (List Str)) (rest : Str)
      → All (All IsWord) (first ∷ others)
      → All (All IsWord) table
      → snapshot now (open_poller device sent (answer (first ∷ others) (answer table rest)))
        ≡ ok (
          inr (snapshot_of_rows device now first table),
          open_poller device ((sent ++ resource_command) ++ interface_command) rest,
        )
  unfolding snapshot system_status interfaces
  snapshot-answer first others table rest h k =
      rw
        (
          run-done
              (record {
                is_open = true;
                sent = sent;
                incoming = answer (first ∷ others) (answer table rest);
              })
              (codes "/system/resource/print") [] (first ∷ others) (answer table rest) refl h refl,
          run-done
              (record {
                is_open = true;
                sent = sent ++ resource_command;
                incoming = answer table rest;
              })
              (codes "/interface/print") [] table rest refl k refl,
        )
        refl

  pub snapshot-trap :
      (words : List Str) (rest : Str)
      → All IsWord words
      → snapshot now (open_poller device sent (trap_bytes words ++ rest))
        ≡ ok (inl (system_reply trap), open_poller device (sent ++ resource_command) rest)
  unfolding snapshot system_status
  snapshot-trap words rest h =
      rw
        (run-trap (record { is_open = true; sent = sent; incoming = trap_bytes words ++ rest })
          (codes "/system/resource/print") [] words rest refl h refl)
        refl

  -- An answer without rows is refused as well, and the second command is not sent.
  pub snapshot-done :
      (rest : Str)
      → snapshot now (open_poller device sent (done_bytes ++ rest))
        ≡ ok (inl (system_reply done), open_poller device (sent ++ resource_command) rest)
  unfolding snapshot system_status
  snapshot-done rest =
      rw
        (run-done (record { is_open = true; sent = sent; incoming = done_bytes ++ rest })
          (codes "/system/resource/print") [] [] rest refl tt (unfold re_bytes in refl))
        refl

add_answer :
    Unexpected ⊎ Snapshot
    → List (Unexpected ⊎ Snapshot) × RouterOsPoller
    → Result (List (Unexpected ⊎ Snapshot) × RouterOsPoller)
add_answer a (later, p) = ok (a ∷ later, p)

-- Polls at the given times, one after the other.
pub polls : List Time → RouterOsPoller → Result (List (Unexpected ⊎ Snapshot) × RouterOsPoller)
unfolding add_answer
polls [] p = ok ([], p)
polls (now ∷ times) p = do (a, p1) ← snapshot now p; rest ← polls times p1; add_answer a rest

-- A poll at a time, and the rows that the device has for its two commands.
pub record Round : Type 0 where
  pub time : Time
  pub resource : List Str
  pub table_first : List Str
  pub table_rest : List (List Str)

abbrev pub times : List Round → List Time
times [] = []
times (r ∷ rounds) = r.time ∷ times rounds

-- What the device sends for the rounds, when it answers each command as it should.
abbrev pub answers : List Round → Str → Str
answers [] rest = rest
answers (r ∷ rounds) rest =
    answer (r.resource ∷ []) (answer (r.table_first ∷ r.table_rest) (answers rounds rest))

-- The snapshots of a poller that is one answer behind, when the first row it has yet to read is
-- given: each takes its status from the table before it, and the row of the resources as its table.
abbrev pub shifted : Str → List Str → List Round → List (Unexpected ⊎ Snapshot)
shifted device first [] = []
shifted device first (r ∷ rounds) =
    inr (snapshot_of_rows device r.time first (r.resource ∷ []))
    ∷ shifted device r.table_first rounds

-- What such a poller leaves unread: always the answer to the last command.
abbrev pub unread : List (List Str) → List Round → Str → Str
unread rows [] rest = answer rows rest
unread rows (r ∷ rounds) rest = unread (r.table_first ∷ r.table_rest) rounds rest

abbrev pub sent_in : Str → List Round → Str
sent_in sent [] = sent
sent_in sent (r ∷ rounds) = sent_in ((sent ++ resource_command) ++ interface_command) rounds

abbrev pub IsRound : Round → Type 0
IsRound r = All IsWord r.resource × All (All IsWord) (r.table_first ∷ r.table_rest)

polls-behind :
    (device sent : Str) (first : List Str) (others : List (List Str)) (rounds : List Round)
    (rest : Str)
    → All (All IsWord) (first ∷ others)
    → All IsRound rounds
    → polls (times rounds) (open_poller device sent (answer (first ∷ others) (answers rounds rest)))
      ≡ ok (
        shifted device first rounds,
        open_poller device (sent_in sent rounds) (unread (first ∷ others) rounds rest),
      )
unfolding polls
polls-behind device sent first others [] rest h k = refl
polls-behind device sent first others (r ∷ rounds) rest h (k, ks) =
    rw
      (
        snapshot-answer device sent r.time first others (r.resource ∷ [])
            (answer (r.table_first ∷ r.table_rest) (answers rounds rest)) h (k.0, tt),
        polls-behind device ((sent ++ resource_command) ++ interface_command) r.table_first
            r.table_rest rounds rest k.1 ks,
      )
      refl

-- After a trap the poller stays one answer behind, however often it polls. The device answers the
-- first poll's command with a trap and "!done", the second poll's with a row, and in each later
-- round the command for the resources with a row and the one for the interfaces with a row or more,
-- in words that are not empty and shorter than 2 ^ 32 bytes. The second poll fails on the "!done"
-- that was left. Each later one returns a snapshot: its status is read from the first row of the
-- answer to the poll before it, which from the fourth poll on is a row of the interfaces, and its
-- only interface from the row of the resources. The answer to the last command stays unread.
pub snapshot-trap-behind :
    (device : Str) (t1 t2 : Time) (words first : List Str) (rounds : List Round) (rest : Str)
    → All IsWord words
    → All IsWord first
    → All IsRound rounds
    → polls (t1 ∷ t2 ∷ times rounds) (
        open_poller device []
          (trap_bytes words ++ (done_bytes ++ answer (first ∷ []) (answers rounds rest))))
      ≡ ok (
        inl (system_reply trap) ∷ inl (system_reply done) ∷ shifted device first rounds,
        open_poller device
            (sent_in ((resource_command) ++ resource_command) rounds)
            (unread (first ∷ []) rounds rest),
      )
unfolding polls
snapshot-trap-behind device t1 t2 words first rounds rest h k l =
    rw
      (
        snapshot-trap device [] t1 words (done_bytes ++ answer (first ∷ []) (answers rounds rest))
            h,
        snapshot-done device resource_command t2 (answer (first ∷ []) (answers rounds rest)),
        polls-behind device (resource_command ++ resource_command) first [] rounds rest (k, tt) l,
      )
      refl
