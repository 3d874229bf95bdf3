-- ===== src/Snmp/Walk.antt =====
-- The client of internal/snmp/client.go: one exchange with an agent, and the walk of a subtree.
pub mod Subtree
pub mod Ends
use whatunga.Prelude.{
  ℕ, zero, suc, ◌≡◌, refl, Bool, true, false, ◌||◌, Option, none, some, ◌⊎◌, inl, inr,
}
use whatunga.Prelude.{List, [], ◌∷◌, ◌++◌, Str, codes, ltb, ◌==◌, if◌then◌else◌, length, has_prefix}
use whatunga.Prelude.Maps.{Map, insert, contains}
use whatunga.Snmp.{Error, Result, ok, err, panic, exchange_failed, empty_response, too_many_entries}
use whatunga.Snmp.Ber.{tag_get_request, tag_get_next_request}
use whatunga.Snmp.Message.{
  Value, end_of_mib_view, Outcome, done, failed, crashed, stuck, build_message, parse_response,
}

-- What lies outside the program: the random request-id, the datagrams, and the entry with which a
-- range over a map begins, which Go leaves open. `W` is the state of the world.
pub record Outside {ℓ} (W : Type ℓ) : Type ℓ where
  pub random31 : W → W × ℕ
  -- the datagram that answers one sent to an address; none where dialing, sending or reading fails
  pub exchange : Str → Str → W → W × Option Str
  pub range_first : W → Map Value → Option (Str × Value)

pub record Client : Type 0 where
  pub addr : Str
  pub community : Str

unfoldable pub new_client : Str → Str → Client
new_client addr community = record {
  addr = if has_colon addr then addr else addr ++ codes ":161";
  community = community;
}
  where
    has_colon : Str → Bool
    has_colon [] = false
    has_colon (c ∷ s) = c == b':' || has_colon s

unfoldable pub is_end_of_mib_view : Value → Bool
is_end_of_mib_view end_of_mib_view = true
is_end_of_mib_view _ = false

module _ {ℓ} {W : Type ℓ} (outside : Outside W) (c : Client) where
  parse_answer : W × Option Str → W × Outcome
  parse_answer (w, none) = (w, failed [] exchange_failed)
  parse_answer (w, some bytes) = (w, parse_response bytes)

  send : W → Result Str → W × Outcome
  unfolding parse_answer
  send w (ok message) = parse_answer (outside.exchange c.addr message w)
  send w (err e) = (w, failed [] e)
  send w panic = (w, crashed)

  unfoldable pub request : ℕ → List Str → W → W × Outcome
  unfolding send
  request pdu_tag oids w =
      let (w1, id) = outside.random31 w in send w1 (build_message c.community pdu_tag id oids)

  unfoldable pub get : List Str → W → W × Outcome
  get oids w = request tag_get_request oids w

  first_or_empty : Option (Str × Value) → Result (Str × Value)
  first_or_empty none = err empty_response
  first_or_empty (some entry) = ok entry

  -- A request is never `stuck`: parseResponse ends.
  next_of : W × Outcome → W × Result (Str × Value)
  unfolding first_or_empty
  next_of (w, done results) = (w, first_or_empty (outside.range_first w results))
  next_of (w, failed results e) = (w, err e)
  next_of (w, crashed) = (w, panic)
  next_of (w, stuck) = (w, panic)

  unfoldable pub get_next : Str → W → W × Result (Str × Value)
  unfolding next_of
  get_next oid w = next_of (request tag_get_next_request (oid ∷ []) w)

abbrev pub max_entries : ℕ
max_entries = 10000

-- `value.Kind == "end-of-mib-view" || !strings.HasPrefix(next, baseOID+".")`
unfoldable pub leaves : Str → Str → Value → Bool
leaves base oid value =
    is_end_of_mib_view value || (if has_prefix oid (base ++ codes ".") then false else true)

-- The walk over any agent: `next` is GetNext, which the client below puts in.
module _ {ℓ} {W : Type ℓ} (next : Str → W → W × Result (Str × Value)) where
  -- One round, which ends the walk or goes on from the next OID with the results so far.
  unfoldable pub round :
      Str → Map Value → W × Result (Str × Value) → (Map Value → Str → W → W × Outcome) → W × Outcome
  unfolding leaves
  round base results (w, err e) go_on = (w, failed results e)
  round base results (w, panic) go_on = (w, crashed)
  round base results (w, ok (oid, value)) go_on =
      let more = insert oid value results in
      let rest = go_on more oid w in
      if leaves base oid value
      then (w, done results)
      else if ltb max_entries (length more)
      then (w, failed more too_many_entries)
      else rest

  unfoldable pub walk_from : ℕ → Str → Map Value → Str → W → W × Outcome
  walk_from zero base results current w = (w, stuck)
  walk_from (suc fuel) base results current w =
      round base results (next current w) (walk_from fuel base)

  unfoldable pub walk : ℕ → Str → W → W × Outcome
  walk fuel base w = walk_from fuel base [] base w
