-- ===== src/Orders/Accounts.antt =====
-- dqengine/runtime/orders.py: the shares that the tickets report and the positions of the sleeve.
use deployquant.Prelude.{
  ℕ, Bool, true, false, ◌||◌, Option, none, some, [], ◌∷◌, ◌≡◌, arith, if◌then◌else◌,
}
use deployquant.Prelude.Eq.{◌==◌, eq_nat, eq_list}
use deployquant.Prelude.Int.{ℤ, pos, ◌+ℤ◌, is_zero, int_laws, +ℤ_assoc, +ℤ_zero, +ℤ_zero_swap}
use deployquant.Prelude.Text.{Text}
use deployquant.Prelude.Dict.{Dict, lookup, has_key, insert, lookup-insert}
use deployquant.Sleeve.{Sleeve, position}
use deployquant.Orders.Defs.{OrderTicket}
use deployquant.Orders.Store.{is_final}

module _ {ℓ} {F : Type ℓ} where
  -- The shares that a ticket reports for a symbol.
  unfoldable pub filled_of : Text → OrderTicket F → ℤ
  filled_of symbol t = if t.symbol == symbol then t.quantity_filled else pos 0

  -- The signed shares that all the tickets report for a symbol.
  unfoldable pub total : Text → Dict ℕ (OrderTicket F) → ℤ
  total symbol [] = pos 0
  total symbol ((id, t) ∷ ts) = filled_of symbol t +ℤ total symbol ts

  abbrev pub unfilled_option : Option (OrderTicket F) → Bool
  unfilled_option none = true
  unfilled_option (some t) = is_final t || is_zero t.quantity_filled

  -- Each position of the sleeve is what the tickets report, and a ticket reports no shares until
  -- it is final.
  pub record Accounted (s : Sleeve F) (ts : Dict ℕ (OrderTicket F)) : Type 0 where
    pub balanced : (symbol : Text) → position s symbol ≡ total symbol ts
    pub unfilled : (id : ℕ) → unfilled_option (lookup id ts) ≡ true

  total-insert_new :
      (symbol : Text) (id : ℕ) (t : OrderTicket F) (ts : Dict ℕ (OrderTicket F))
      → has_key id ts ≡ false
      → total symbol (insert id t ts) ≡ total symbol ts +ℤ filled_of symbol t
  unfolding total insert lookup
  total-insert_new symbol id t [] h = omega int_laws
  total-insert_new symbol id t ((j, u) ∷ ts) h = ground (
    arith,
    total-insert_new symbol id t ts,
    +ℤ_assoc (filled_of symbol u) (total symbol ts) (filled_of symbol t),
  )

  -- A ticket that reported nothing is written again.
  total-insert :
      (symbol : Text) (id : ℕ) (t t' : OrderTicket F) (ts : Dict ℕ (OrderTicket F))
      → lookup id ts ≡ some t
      → t.quantity_filled ≡ pos 0
      → total symbol (insert id t' ts) ≡ total symbol ts +ℤ filled_of symbol t'
  unfolding total insert lookup filled_of
  total-insert symbol id t t' [] h z = absurd (ground arith)
  total-insert symbol id t t' ((j, u) ∷ ts) h z = ground (
    arith,
    total-insert symbol id t t' ts,
    +ℤ_assoc (filled_of symbol u) (total symbol ts) (filled_of symbol t'),
    +ℤ_zero_swap (filled_of symbol t') (total symbol ts),
  )

  module _ {s : Sleeve F} {ts : Dict ℕ (OrderTicket F)} (a : Accounted s ts) where
    unreported :
        (id : ℕ) (t : OrderTicket F)
        → lookup id ts ≡ some t
        → is_final t ≡ false
        → t.quantity_filled ≡ pos 0
    unreported id t e live = ground (arith, a.unfilled id)

    -- A new ticket, which reports nothing.
    pub append-Accounted :
        (id : ℕ) (t : OrderTicket F)
        → has_key id ts ≡ false
        → t.quantity_filled ≡ pos 0
        → Accounted s (insert id t ts)
    unfolding filled_of
    append-Accounted id t fresh z = record {
      balanced = λ symbol. ground (
        arith,
        a.balanced symbol,
        total-insert_new symbol id t ts fresh,
        +ℤ_zero (total symbol ts),
      );
      unfilled = λ j. ground (arith, a.unfilled j, lookup-insert id j t ts);
    }

    module _ (id : ℕ) (t t' : OrderTicket F) (e : lookup id ts ≡ some t)
        (live : is_final t ≡ false) where
      -- A write that leaves what the ticket reports as it was.
      pub put-Accounted : t'.quantity_filled ≡ t.quantity_filled → Accounted s (insert id t' ts)
      unfolding filled_of
      put-Accounted same =
          let z = unreported id t e live in
          record {
            balanced = λ symbol. ground (
              arith,
              a.balanced symbol,
              total-insert symbol id t t' ts e z,
              +ℤ_zero (total symbol ts),
            );
            unfilled = λ j. ground (arith, a.unfilled j, lookup-insert id j t' ts);
          }

      -- A fill: the ticket reports the shares that the position moved by.
      pub fill-Accounted :
          {s' : Sleeve F}
          → ((symbol : Text) → position s' symbol ≡ position s symbol +ℤ filled_of symbol t')
          → is_final t' ≡ true
          → Accounted s' (insert id t' ts)
      fill-Accounted moved done =
          let z = unreported id t e live in
          record {
            balanced =
                λ symbol. cc (moved symbol, a.balanced symbol, total-insert symbol id t t' ts e z);
            unfilled = λ j. ground (arith, a.unfilled j, lookup-insert id j t' ts);
          }
