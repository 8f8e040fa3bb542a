-- ===== src/Executor/Kept.antt =====
-- dqengine/live/executor.py: the owner's kept shares, taken out of the account's positions.
use deployquant.Prelude.{[], ◌∷◌, if◌then◌else◌}
use deployquant.Prelude.Eq.{eq_nat, eq_list}
use deployquant.Prelude.Int.{ℤ, pos, negsuc}
use deployquant.Prelude.Text.{Text}
use deployquant.Prelude.Float.{Float, abs_of, nought, min_of, max_of, nonzero}
use deployquant.Prelude.Dict.{Dict, get, insert}

-- A row of executions.kept_holdings.
pub record Holding {ℓ} (F : Type ℓ) : Type ℓ where
  pub kept : F
  pub booked : F

module _ {ℓ} {F : Type ℓ} ⦃f : Float F⦄ where
  open f use {minus, lt, lit, negate}

  -- `float(d.get(sym) or 0.0)`
  abbrev pub held_of : Text → Dict Text F → F
  held_of sym d = get sym d nought

  -- The kept shares of a symbol that the account has beyond the books.
  unfoldable pub kept_qty : F → F → F
  kept_qty k spare =
      if lt nought k
      then min_of k (max_of spare nought)
      else (if lt k nought then max_of k (min_of spare nought) else nought)

  -- `kept` has each symbol once, so the loop writes no entry twice.
  unfoldable pub kept_now : Dict Text F → Dict Text (Holding F) → Dict Text F
  kept_now positions [] = []
  kept_now positions ((sym, kb) ∷ rest) =
      let q = kept_qty kb.kept (minus (held_of sym positions) kb.booked) in
      if nonzero q then (sym, q) ∷ kept_now positions rest else kept_now positions rest

  -- The loop of `carve_kept`.
  unfoldable pub take_out : Dict Text F → Dict Text F → Dict Text F
  take_out [] out = out
  take_out ((sym, q) ∷ rest) out = take_out rest (insert sym (minus (held_of sym out) q) out)

  unfoldable pub carve_kept : Dict Text F → Dict Text (Holding F) → Dict Text F
  carve_kept positions kept = take_out (kept_now positions kept) positions

  -- The symbols whose kept shares are not all there, with the kept side.
  unfoldable pub kept_short : Dict Text F → Dict Text (Holding F) → Dict Text ℤ
  kept_short now [] = []
  kept_short now ((sym, kb) ∷ rest) =
      if lt (abs_of (held_of sym now)) (minus (abs_of kb.kept) (lit (pos 1) 9))
      then (sym, (if lt nought kb.kept then pos 1 else negsuc 0)) ∷ kept_short now rest
      else kept_short now rest

  -- KeptView.positions: what it returns, `kept_now` and `kept_short`.
  unfoldable pub view_positions :
      Dict Text F → Dict Text (Holding F) → Dict Text F × (Dict Text F × Dict Text ℤ)
  view_positions real kept =
      let now = kept_now real kept in (carve_kept real kept, (now, kept_short now kept))
