-- ===== src/Ledger/Runs.antt =====
-- dqengine/runtime/core/ledger.py: runs of requests against one ledger.
use mathlib.Core.List.{Perm}
use mathlib.Core.List.Perm
use deployquant.Prelude.{ℕ, suc, Option, List, [], ◌∷◌, ◌++◌, ◌≡◌, refl, append_assoc}
use deployquant.Prelude.Int.{ℤ}
use deployquant.Prelude.Text.{Text}
use deployquant.Ledger.Defs.{
  LedgerFill, ExecutionLedger, Reply, take, take_rule_fill, is_left, leftovers, sort_fills,
  new_ledger,
}
use deployquant.Ledger.Conservation.{
  handed, left, Conserves, take-Conserves, take_rule_fill-Conserves, sort_fills-perm,
}

-- A question that the engine asks.
pub data Request : Type 0 where
  asks : ℕ → Text → Option Text → Option ℤ → Request
  pumps : ℕ → Text → Option Text → ℕ → Request

module _ {ℓ} {F : Type ℓ} where
  unfoldable pub serve : ExecutionLedger F → Request → Reply F
  serve l (asks day symbol rule_id side) = take l day symbol rule_id side
  serve l (pumps day symbol rule_tag upto_ms) = take_rule_fill l day symbol rule_tag upto_ms

  -- All rows that a run of requests gives out, and the ledger after it.
  unfoldable pub serve_all :
      ExecutionLedger F → List Request → List (LedgerFill F) × ExecutionLedger F
  serve_all l [] = ([], l)
  serve_all l (q ∷ qs) =
      let (l', answer) = serve l q in
      let (rest, end) = serve_all l' qs in (handed answer ++ rest, end)

  serve-Conserves : (l : ExecutionLedger F) (q : Request) → Conserves l (serve l q)
  unfolding serve
  serve-Conserves l (asks day symbol rule_id side) = take-Conserves l day symbol rule_id side
  serve-Conserves l (pumps day symbol tag upto_ms) =
      take_rule_fill-Conserves l day symbol tag upto_ms

  serve_all-Conserves :
      (l : ExecutionLedger F) (qs : List Request)
      → let (given, end) = serve_all l qs in Perm (leftovers l) (given ++ leftovers end)
  unfolding serve_all
  serve_all-Conserves l [] = Perm.refl _
  serve_all-Conserves l (q ∷ qs) =
      let (l', answer) = serve l q in
      let (rest, end) = serve_all l' qs in
      Perm.trans (serve-Conserves l q) (
        rw (append_assoc (handed answer) rest (leftovers end))
          (Perm.append_left (handed answer) (serve_all-Conserves l' qs)))

  rows-enumerate : (n : ℕ) (xs : List (LedgerFill F)) → left [] n xs ≡ xs
  rows-enumerate n [] = refl
  rows-enumerate n (x ∷ xs) = rw (rows-enumerate (suc n) xs)

  -- From a new ledger, the rows given out by any run of `take` and `take_rule_fill` calls together
  -- with the leftovers are the broker's executions, each as often as the broker reported it.
  pub new_ledger-Conserves :
      (fills : List (LedgerFill F)) (unknown : List Text) (from unknown_from : Option ℕ)
      (qs : List Request)
      → let (given, end) = serve_all (new_ledger fills unknown from unknown_from) qs in
        Perm fills (given ++ leftovers end)
  new_ledger-Conserves fills unknown from unknown_from qs =
      let l = new_ledger fills unknown from unknown_from in
      let all_left : leftovers l ≡ sort_fills fills =
        unfold leftovers is_left new_ledger in rows-enumerate 0 (sort_fills fills) in
      Perm.trans (sort_fills-perm fills) (rw all_left at (serve_all-Conserves l qs))
