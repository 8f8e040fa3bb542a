-- ===== src/LiveBook/Tests.antt =====
-- dqengine/live/book.py: a book that submits, and is audited.
use deployquant.Prelude.{
  inr, true, false, not, ◌||◌, none, some, [], ◌∷◌, ◌≡◌, ◌↔◌, refl, arith, if◌then◌else◌,
}
use deployquant.Prelude.Eq.{eq_nat, eq_list, contains}
use deployquant.Prelude.Int.{pos}
use deployquant.Prelude.Text.{Text, codes, upper, lower, truthy_text}
use deployquant.Prelude.Float.{Fixed, fixed_float}
use deployquant.Prelude.Dict.{lookup, get}
use deployquant.LiveBook.Defs.{
  Book, Order, is_ok, is_frozen, is_unacked, unacked_message, first_unacked, check_unacked,
  fast_path_ok, text_of, ack_key, is_dead, settling, gc, apply_audit, fetched_positions,
  fetched_orders, fetched_cids,
}
use deployquant.LiveBook.Gate.{
  IsTrusted, IsRising, accepted, fast_path_ok_iff, refused-again, accepted-IsRising,
}
use deployquant.LiveBook.Audit.{
  kept_order, first_some, submitted, lookup-apply_audit, lookup-apply_audit_order,
  submitted-apply_audit,
}

abbrev audited : Book Fixed
audited = record {
  positions = (codes "SPY", pos 100_000) ∷ [];
  open_orders = [];
  inflight = [];
  recent = [];
  seq = (codes "d1", 4) ∷ [];
  reconciled_at = 1_000_000;
  frozen = none;
}

-- An order whose acknowledgement has no id.
abbrev order : Order Fixed
order = record {
  id = none;
  client_order_id = some (codes "c1");
  symbol = some (codes "spy");
  status = some (codes "SUBMITTED");
  qty = some (pos 50_000);
}

fast_path_ok_iff_example :
    (fast_path_ok true 1_010_000 audited ≡ (is_ok, audited))
    ↔ ((true ≡ true) × IsTrusted 1_010_000 audited)
fast_path_ok_iff_example = fast_path_ok_iff true 1_010_000 audited

-- A submission that has been in flight for a minute.
abbrev slow : Book Fixed
slow = record audited {
  inflight =
      (codes "c1", record { sym = codes "SPY"; side = codes "buy"; qty = pos 1; at = 950_000 })
      ∷ [];
}

abbrev why : Text
why = unacked_message (codes "c1")

abbrev gone_bad : Book Fixed
gone_bad = record slow { frozen = some why }

found : fast_path_ok true 1_010_000 slow ≡ (is_unacked why, gone_bad)
unfolding fast_path_ok first_unacked check_unacked
found = refl

refused-again_example : fast_path_ok true 1_020_000 gone_bad ≡ (is_frozen why, gone_bad)
refused-again_example =
    refused-again 1_010_000 1_020_000 slow gone_bad (is_unacked why) why found (inr refl)

accepted-IsRising_example :
    IsRising (get (codes "d1") audited.seq 0) (accepted (codes "d1") (5 ∷ 5 ∷ 4 ∷ 7 ∷ []) audited)
accepted-IsRising_example = accepted-IsRising (codes "d1") (5 ∷ 5 ∷ 4 ∷ 7 ∷ []) audited

abbrev after_submit : Book Fixed
after_submit =
    submitted 1_010_000 (codes "c1") (codes "spy") (codes "buy") (pos 50_000) order audited

lookup-apply_audit_example :
    lookup (codes "SPY") (apply_audit 1_012_000 [] [] after_submit).positions ≡ (
      if contains (codes "SPY") (settling (gc 1_012_000 after_submit))
      then lookup (codes "SPY") after_submit.positions
      else lookup (codes "SPY") (fetched_positions [] []))
lookup-apply_audit_example = lookup-apply_audit 1_012_000 [] [] after_submit (codes "SPY")

lookup-apply_audit_order_example :
    lookup (codes "c1") (apply_audit 1_012_000 [] (order ∷ []) audited).open_orders
    ≡ first_some (lookup (codes "c1") (fetched_orders [] (order ∷ []))) (
        kept_order
          (settling (gc 1_012_000 audited))
          (fetched_cids (fetched_orders [] (order ∷ [])))
          (lookup (codes "c1") audited.open_orders))
lookup-apply_audit_order_example =
    lookup-apply_audit_order 1_012_000 [] (order ∷ []) audited (codes "c1") tt

live : (not (truthy_text (ack_key (codes "c1") order)) || is_dead order) ≡ false
unfolding ack_key is_dead text_of lower
live = refl

absent : lookup (ack_key (codes "c1") order) (fetched_orders {F = Fixed} [] []) ≡ none
unfolding fetched_orders lookup
absent = refl

unseen :
    contains (text_of order.client_order_id) (fetched_cids (fetched_orders {F = Fixed} [] []))
    ≡ false
unfolding fetched_orders fetched_cids
unseen = refl

submitted-apply_audit_example :
    (lookup (ack_key (codes "c1") order) (apply_audit 1_012_000 [] [] after_submit).open_orders
      ≡ some order)
    × (lookup (upper (codes "spy")) (apply_audit 1_012_000 [] [] after_submit).positions
        ≡ lookup (upper (codes "spy")) audited.positions)
submitted-apply_audit_example =
    submitted-apply_audit 1_010_000 1_012_000 (codes "c1") (codes "spy") (codes "buy") (pos 50_000)
      order audited live (omega arith) [] [] tt refl absent unseen
