-- ===== src/LiveBook/Defs.antt =====
-- dqengine/live/book.py: the book and its operations. The lock makes each operation one step. Times
-- are whole milliseconds; an operation that reads the clock takes what it reads as `now`.
use deployquant.Prelude.{
  ℕ, ◌-◌, Bool, true, false, not, ◌&&◌, ◌||◌, Option, none, some, List, [], ◌∷◌, ◌++◌, leb, ltb,
  if◌then◌else◌, or_else, keep, map,
}
use deployquant.Prelude.Eq.{◌==◌, eq_nat, eq_list, eq_option, contains}
use deployquant.Prelude.Int.{pos}
use deployquant.Prelude.Text.{Text, codes, upper, lower, truthy, truthy_text}
use deployquant.Prelude.Float.{Float, nought}
use deployquant.Prelude.Dict.{Dict, lookup, get, has_key, insert, erase}

abbrev pub reconcile_fresh_ms : ℕ
reconcile_fresh_ms = 90_000

abbrev pub recent_ms : ℕ
recent_ms = 5_000

abbrev pub inflight_max_ms : ℕ
inflight_max_ms = 20_000

-- An audit drops what has been in flight for longer than this.
abbrev pub audit_keep_ms : ℕ
audit_keep_ms = 2_000

-- The keys of an order's dictionary that the book reads.
pub record Order {ℓ} (F : Type ℓ) : Type ℓ where
  pub id : Option Text
  pub client_order_id : Option Text
  pub symbol : Option Text
  pub status : Option Text
  pub qty : Option F

-- A submission of ours.
pub record Submission {ℓ} (F : Type ℓ) : Type ℓ where
  pub sym : Text
  pub side : Text
  pub qty : F
  pub at : ℕ

pub record Book {ℓ} (F : Type ℓ) : Type ℓ where
  pub positions : Dict Text F
  pub open_orders : Dict Text (Order F)
  pub inflight : Dict Text (Submission F)
  pub recent : List (Submission F)
  pub seq : Dict Text ℕ
  pub reconciled_at : ℕ
  pub frozen : Option Text

-- What `fast_path_ok` answers: `is_frozen why` is "frozen: why", and `is_unacked why` is `why` alone.
pub data Verdict : Type 0 where
  is_ok switched_off : Verdict
  is_frozen is_unacked : Text → Verdict
  is_stale : ℕ → Verdict

-- A row of `note_fills`: the broker's id, the client's id, the symbol and the signed quantity.
pub record FillRow {ℓ} (F : Type ℓ) : Type ℓ where
  pub broker_order_id : Option Text
  pub client_order_id : Option Text
  pub symbol : Option Text
  pub signed_qty : F

-- `s[:n]`
unfoldable pub first_of : ℕ → Text → Text
first_of n [] = []
first_of n (c ∷ s) = let rest = first_of (n - 1) s in if leb n 0 then [] else c ∷ rest

-- `s or ""`
unfoldable pub text_of : Option Text → Text
text_of none = []
text_of (some s) = s

unfoldable pub unacked_message : Text → Text
unacked_message cid = codes "inflight " ++ cid ++ codes " unacked >20s"

module _ {ℓ} {F : Type ℓ} where
  -- `Book(conn_id)`
  unfoldable pub new_live_book : Book F
  new_live_book = record {
    positions = [];
    open_orders = [];
    inflight = [];
    recent = [];
    seq = [];
    reconciled_at = 0;
    frozen = some (codes "never audited");
  }

  -- The first submission in flight that is too old.
  unfoldable pub first_unacked : ℕ → Dict Text (Submission F) → Option Text
  first_unacked now [] = none
  first_unacked now ((cid, e) ∷ es) =
      let rest = first_unacked now es in if ltb inflight_max_ms (now - e.at) then some cid else rest

  -- The last of its tests, which freezes the book.
  unfoldable pub check_unacked : Option Text → Book F → Verdict × Book F
  check_unacked none b = (is_ok, b)
  check_unacked (some cid) b =
      (is_unacked (unacked_message cid), record b { frozen = some (unacked_message cid) })

  -- `fast_path_ok`; `fast_path` is the module's switch FAST_PATH.
  unfoldable pub fast_path_ok : Bool → ℕ → Book F → Verdict × Book F
  fast_path_ok fast_path now b =
      if not fast_path
      then (switched_off, b)
      else if truthy b.frozen
      then (is_frozen (text_of b.frozen), b)
      else if ltb reconcile_fresh_ms (now - b.reconciled_at)
      then (is_stale (now - b.reconciled_at), b)
      else check_unacked (first_unacked now b.inflight) b

  unfoldable pub freeze : Text → Book F → Book F
  freeze reason b = record b { frozen = some (first_of 300 reason) }

  -- `_gc`
  unfoldable pub gc : ℕ → Book F → Book F
  gc now b = record b { recent = keep (λ r. ltb (now - r.at) recent_ms) b.recent }

  unfoldable pub note_submit : ℕ → Text → Text → Text → F → Book F → Book F
  note_submit now cid sym side qty b =
      let e : Submission F = record { sym = upper sym; side = side; qty = qty; at = now } in
      gc now (record b { inflight = insert cid e b.inflight; recent = b.recent ++ e ∷ [] })

  -- `order.get("id") or order.get("client_order_id") or cid`
  unfoldable pub ack_key : Text → Order F → Text
  ack_key cid order =
      if truthy order.id
      then text_of order.id
      else if truthy order.client_order_id
      then text_of order.client_order_id
      else cid

  unfoldable pub is_dead : Order F → Bool
  is_dead order =
      contains (lower (text_of order.status))
        (codes "canceled" ∷ codes "cancelled" ∷ codes "rejected" ∷ codes "expired" ∷ [])

  unfoldable pub note_ack : Text → Option (Order F) → Book F → Book F
  note_ack cid none b = record b { inflight = erase cid b.inflight }
  note_ack cid (some order) b =
      let key = ack_key cid order in
      let b' = record b { inflight = erase cid b.inflight } in
      if not (truthy_text key) || is_dead order
      then b'
      else record b' { open_orders = insert key order b.open_orders }

  unfoldable pub note_reject : Text → Book F → Book F
  note_reject cid b = record b { inflight = erase cid b.inflight }

  unfoldable pub note_cancel : Text → Book F → Book F
  note_cancel broker_order_id b = record b { open_orders = erase broker_order_id b.open_orders }

  -- The first open order with the client's id, as its key or in its dictionary.
  unfoldable pub key_of_client : Text → Dict Text (Order F) → Option Text
  key_of_client cid [] = none
  key_of_client cid ((k, o) ∷ os) =
      let rest = key_of_client cid os in
      if k == cid || o.client_order_id == some cid then some k else rest

  -- The order that a fill belongs to.
  unfoldable pub fill_key : FillRow F → Dict Text (Order F) → Option Text
  fill_key row os =
      if truthy row.broker_order_id && has_key (text_of row.broker_order_id) os
      then row.broker_order_id
      else if truthy row.client_order_id
      then key_of_client (text_of row.client_order_id) os
      else none

  -- Symbols with our own activity inside the settle window.
  unfoldable pub settling : Book F → List Text
  settling b = map (λ r. r.sym) b.recent ++ map (λ e. e.1.sym) b.inflight

  unfoldable pub recent_symbols : ℕ → Book F → List Text × Book F
  recent_symbols now b = (settling (gc now b), gc now b)

  unfoldable pub intent_is_new : Text → ℕ → Book F → Bool × Book F
  intent_is_new dep_id seq b =
      if leb seq (get dep_id b.seq 0)
      then (false, b)
      else (true, record b { seq = insert dep_id seq b.seq })

module _ {ℓ} {F : Type ℓ} ⦃f : Float F⦄ where
  open f use {lit, plus, minus, negate, lt, le}

  -- `abs(x)`
  unfoldable pub magnitude : F → F
  magnitude x = if lt x nought then negate x else x

  unfoldable pub reduce_order : Option Text → F → Dict Text (Order F) → Dict Text (Order F)
  reduce_order none qty os = os
  reduce_order (some key) qty os = elim (lookup key os) [
    | none ↦ os
    | some o ↦
        let left = minus (or_else o.qty nought) (magnitude qty) in
        if le left (lit (pos 1) 9)
        then erase key os
        else insert key (record o { qty = some left }) os
  ]

  unfoldable pub note_fill : Bool → FillRow F → Book F → Book F
  note_fill positions row b =
      let sym = upper (text_of row.symbol) in
      let moved = insert sym (plus (get sym b.positions nought) row.signed_qty) b.positions in
      record b {
        positions = if positions then moved else b.positions;
        open_orders = reduce_order (fill_key row b.open_orders) row.signed_qty b.open_orders;
      }

  unfoldable pub note_fills : List (FillRow F) → Bool → Book F → Book F
  note_fills [] positions b = b
  note_fills (row ∷ rows) positions b = note_fills rows positions (note_fill positions row b)

module _ {ℓ} {F : Type ℓ} where
  -- The fetched positions, by the upper-case symbol.
  unfoldable pub fetched_positions : Dict Text F → Dict Text F → Dict Text F
  fetched_positions new [] = new
  fetched_positions new ((s, q) ∷ ps) = fetched_positions (insert (upper s) q new) ps

  unfoldable pub fetched_orders : Dict Text (Order F) → List (Order F) → Dict Text (Order F)
  fetched_orders new [] = new
  fetched_orders new (o ∷ os) =
      fetched_orders (if truthy o.id then insert (text_of o.id) o new else new) os

  -- For the symbols that settle, the book's own position.
  unfoldable pub keep_positions : Dict Text F → List Text → Dict Text F → Dict Text F
  keep_positions own [] new = new
  keep_positions own (sym ∷ syms) new =
      keep_positions own syms
        (elim (lookup sym own) [ none ↦ erase sym new | some q ↦ insert sym q new ])

  unfoldable pub fetched_cids : Dict Text (Order F) → List Text
  fetched_cids new = keep truthy_text (map (λ e. text_of e.1.client_order_id) new)

  -- An open order of the book that stays although the fetch does not have it.
  unfoldable pub is_kept : List Text → List Text → Order F → Bool
  is_kept settle cids o =
      contains (upper (text_of o.symbol)) settle && not (contains (text_of o.client_order_id) cids)

  unfoldable pub keep_orders :
      List Text → List Text → Dict Text (Order F) → Dict Text (Order F) → Dict Text (Order F)
  keep_orders settle cids [] new = new
  keep_orders settle cids ((k, o) ∷ os) new =
      keep_orders settle cids os
        (if is_kept settle cids o && not (has_key k new) then insert k o new else new)

  unfoldable pub apply_audit : ℕ → Dict Text F → List (Order F) → Book F → Book F
  apply_audit now positions open_orders b =
      let settle = settling (gc now b) in
      let new = fetched_orders [] open_orders in
      record (gc now b) {
        positions = keep_positions b.positions settle (fetched_positions [] positions);
        open_orders = keep_orders settle (fetched_cids new) b.open_orders new;
        inflight = keep (λ e. ltb (now - e.1.at) audit_keep_ms) b.inflight;
        reconciled_at = now;
        frozen = none;
      }
