-- ===== src/Ledger/Tests.antt =====
-- dqengine/runtime/core/ledger.py: the ledger of a small day.
use mathlib.Core.List.{Perm}
use deployquant.Prelude.{
  ℕ, ◌*◌, false, none, some, List, [], ◌∷◌, ◌++◌, ◌≡◌, ◌≢◌, ◌↔◌, refl, All, arith,
}
use deployquant.Prelude.Eq.{eq_nat, eq_list, eq_option}
use deployquant.Prelude.Int.{pos}
use deployquant.Prelude.Text.{Text, codes, upper}
use deployquant.Prelude.Float.{Fixed}
use deployquant.Ledger.Defs.{
  LedgerFill, ExecutionLedger, LiveCappedLedger, new_ledger, take, take_rule_fill, take_capped,
  leftovers, outside_window, absence_unknown, candidates, norm_sym, is_candidate, on_side,
  sort_fills, insert_fill, earlier,
}
use deployquant.Ledger.Conservation.{handed}
use deployquant.Ledger.Runs.{asks, pumps, serve_all, new_ledger-Conserves}
use deployquant.Ledger.Answers.{take-eq-nil, take-presence, with_unknown}
use deployquant.Ledger.Rows.{IsAnswer, take-IsAnswer}
use deployquant.Ledger.Capped.{Adopts, take_rule_fill-Adopts, take_capped_live}

abbrev row : ℕ → Text → LedgerFill Fixed
row ms order = record {
  day = 3;
  time_ms = ms;
  symbol = codes "SPY";
  qty = pos 10;
  price = pos (100 * 10000);
  fees = pos 0;
  rule_tag = some (codes "dip");
  broker_order_id = some order;
}

abbrev day_rows : List (LedgerFill Fixed)
day_rows = row 500 (codes "b") ∷ row 200 (codes "a") ∷ row 300 (codes "a") ∷ []

abbrev ledger : ExecutionLedger Fixed
ledger = new_ledger day_rows [] (some 1) none

abbrev spy : Text
spy = codes "spy"

abbrev capped_ledger : LiveCappedLedger Fixed
capped_ledger = record { inner = ledger; live_from = 3 }

new_ledger-Conserves_example :
    let (given, end) =
      serve_all ledger (asks 3 spy none none ∷ pumps 3 spy (some (codes "dip")) 900 ∷ []) in
    Perm day_rows (given ++ leftovers end)
new_ledger-Conserves_example =
    new_ledger-Conserves day_rows [] (some 1) none
      (asks 3 spy none none ∷ pumps 3 spy (some (codes "dip")) 900 ∷ [])

take-eq-nil_example :
    let sym = norm_sym (some spy) in
    ((take ledger 4 spy none none).1 ≡ some []) ↔ (
      (outside_window ledger 4 ≡ false)
      × (candidates ledger 4 sym none ≡ [])
      × (absence_unknown ledger 4 sym ≡ false))
take-eq-nil_example = take-eq-nil ledger 4 spy none none

inside : outside_window ledger 3 ≡ false
unfolding outside_window new_ledger
inside = refl

cons_ne_nil : (p : ℕ × LedgerFill Fixed) (ps : List (ℕ × LedgerFill Fixed)) → p ∷ ps ≢ []
cons_ne_nil p ps e = cc e

present : candidates ledger 3 (norm_sym (some spy)) none ≢ []
unfolding candidates new_ledger is_candidate on_side sort_fills insert_fill earlier norm_sym upper
present = cons_ne_nil _ _

take-presence_example :
    let (l', answer) = take ledger 3 spy none none in
    (answer ≢ none)
    × (answer ≢ some [])
    × (take (with_unknown ledger (codes "SPY" ∷ []) none) 3 spy none none
        ≡ (with_unknown l' (codes "SPY" ∷ []) none, answer))
take-presence_example = take-presence ledger 3 spy none none (codes "SPY" ∷ []) none inside present

take-IsAnswer_example :
    All
      (IsAnswer 3 (norm_sym (some spy)) (some (pos 1)))
      (handed (take ledger 3 spy none (some (pos 1))).1)
take-IsAnswer_example = take-IsAnswer ledger 3 spy none (some (pos 1))

take_rule_fill-Adopts_example :
    Adopts 3
      (norm_sym (some spy))
      (codes "dip")
      400
      (take_rule_fill ledger 3 spy (some (codes "dip")) 400).1
take_rule_fill-Adopts_example = take_rule_fill-Adopts ledger 3 spy (codes "dip") 400

take_capped_live_example :
    let (c', capped) = take_capped capped_ledger 4 spy none none in
    let (l', real) = take ledger 4 spy none none in
    (c' ≡ record capped_ledger { inner = l' }) × (capped ≢ some []) × (handed capped ≡ handed real)
take_capped_live_example = take_capped_live capped_ledger 4 spy none none (omega arith)
