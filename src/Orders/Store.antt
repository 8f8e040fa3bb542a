-- ===== src/Orders/Store.antt =====
-- dqengine/runtime/orders.py: the tickets, the open list and the ids, under the writes that the
-- methods make.
use deployquant.Prelude.{
  ℕ, ◌+◌, ◌≤◌, Bool, true, false, not, ◌&&◌, ◌||◌, Option, none, some, List, [], ◌∷◌, ◌++◌, ◌≡◌,
  ◌⊎◌, inr, refl, arith, ltb, leb, if◌then◌else◌,
}
use deployquant.Prelude.Eq.{◌==◌, eq_nat, contains}
use deployquant.Prelude.Dict.{Dict, lookup, has_key, insert, lookup-insert}
use deployquant.Orders.Defs.{OrderTicket, filled, canceled, invalid, is_open, remove_one}

abbrev pub IsDistinct : List ℕ → Type 0
IsDistinct [] = Unit
IsDistinct (i ∷ is) = (contains i is ≡ false) × IsDistinct is

contains-append : (j i : ℕ) (is : List ℕ) → contains j (is ++ i ∷ []) ≡ (contains j is || (i == j))
contains-append j i [] = ground arith
contains-append j i (k ∷ is) = ground (arith, contains-append j i is)

IsDistinct-append :
    (i : ℕ) (is : List ℕ) → IsDistinct is → contains i is ≡ false → IsDistinct (is ++ i ∷ [])
IsDistinct-append i [] d h = (refl, tt)
IsDistinct-append i (k ∷ is) d h =
    ground (arith, contains-append k i is, IsDistinct-append i is d.1)

contains-remove_one :
    (j i : ℕ) (is : List ℕ)
    → IsDistinct is
    → contains j (remove_one i is) ≡ (contains j is && not (i == j))
unfolding remove_one
contains-remove_one j i [] d = refl
contains-remove_one j i (k ∷ is) d = ground (arith, contains-remove_one j i is d.1)

IsDistinct-remove_one : (i : ℕ) (is : List ℕ) → IsDistinct is → IsDistinct (remove_one i is)
unfolding remove_one
IsDistinct-remove_one i [] d = tt
IsDistinct-remove_one i (k ∷ is) d =
    ground (arith, contains-remove_one k i is d.1, IsDistinct-remove_one i is d.1)

-- No transition leaves these.
unfoldable pub is_final {ℓ} : {F : Type ℓ} → OrderTicket F → Bool
is_final t = elim t.status [ filled ↦ true | canceled ↦ true | invalid ↦ true | _ ↦ false ]

module _ {ℓ} {F : Type ℓ} where
  abbrev pub open_option : Option (OrderTicket F) → Bool
  open_option none = false
  open_option (some t) = is_open t

  abbrev pub final_option : Option (OrderTicket F) → Option (OrderTicket F)
  final_option none = none
  final_option (some t) = if is_final t then some t else none

  -- The ids are 1, 2, …, and the open list holds the open tickets, each once.
  pub record Sound (tickets : Dict ℕ (OrderTicket F)) (open_ids : List ℕ) (next_id : ℕ)
      : Type 0 where
    pub known : (id : ℕ) → has_key id tickets ≡ (leb 1 id && ltb id next_id)
    pub opened : (id : ℕ) → contains id open_ids ≡ open_option (lookup id tickets)
    pub distinct : IsDistinct open_ids
    pub started : 1 ≤ next_id

  -- Ids are only added, and a ticket that is filled, canceled or invalid never changes.
  pub record Grows (ts : Dict ℕ (OrderTicket F)) (n : ℕ) (ts' : Dict ℕ (OrderTicket F)) (n' : ℕ)
      : Type ℓ where
    pub more : n ≤ n'
    pub frozen :
        (id : ℕ)
        → (final_option (lookup id ts) ≡ none)
          ⊎ (final_option (lookup id ts') ≡ final_option (lookup id ts))

  pub Grows-refl : (ts : Dict ℕ (OrderTicket F)) (n : ℕ) → Grows ts n ts n
  Grows-refl ts n = record { more = omega arith; frozen = λ id. inr refl }

  pub Grows-trans :
      {ts ts' ts'' : Dict ℕ (OrderTicket F)} {n n' n'' : ℕ}
      → Grows ts n ts' n'
      → Grows ts' n' ts'' n''
      → Grows ts n ts'' n''
  Grows-trans g h = record {
    more = omega (arith, g.more, h.more);
    frozen = λ id. ground (arith, g.frozen id, h.frozen id);
  }

  module _ (ts : Dict ℕ (OrderTicket F)) (os : List ℕ) (n id : ℕ) (t t' : OrderTicket F) where
    -- A write that leaves a ticket as open, or as closed, as it was.
    pub put-Sound :
        Sound ts os n
        → lookup id ts ≡ some t
        → is_open t' ≡ is_open t
        → Sound (insert id t' ts) os n
    put-Sound s e same = record {
      known = λ j. ground (arith, lookup-insert id j t' ts, s.known j);
      opened = λ j. ground (arith, lookup-insert id j t' ts, s.opened j);
      distinct = s.distinct;
      started = s.started;
    }

    -- A write to a ticket that is not final.
    pub put-Grows : lookup id ts ≡ some t → is_final t ≡ false → Grows ts n (insert id t' ts) n
    put-Grows e live = record {
      more = omega arith;
      frozen = λ j. ground (arith, lookup-insert id j t' ts);
    }

    -- A ticket is closed and leaves the open list.
    pub close-Sound :
        Sound ts os n
        → lookup id ts ≡ some t
        → is_open t' ≡ false
        → Sound (insert id t' ts) (remove_one id os) n
    close-Sound s e shut = record {
      known = λ j. ground (arith, lookup-insert id j t' ts, s.known j);
      opened = λ j.
          ground
            (arith, lookup-insert id j t' ts, s.opened j, contains-remove_one j id os s.distinct);
      distinct = IsDistinct-remove_one id os s.distinct;
      started = s.started;
    }

    -- A ticket that was not open is opened, and joins the end of the open list.
    pub open-Sound :
        Sound ts os n
        → lookup id ts ≡ some t
        → is_open t ≡ false
        → is_open t' ≡ true
        → Sound (insert id t' ts) (os ++ id ∷ []) n
    open-Sound s e shut opens = record {
      known = λ j. ground (arith, lookup-insert id j t' ts, s.known j);
      opened = λ j. ground (arith, lookup-insert id j t' ts, s.opened j, contains-append j id os);
      distinct = IsDistinct-append id os s.distinct (ground (arith, s.opened id));
      started = s.started;
    }

  module _ (ts : Dict ℕ (OrderTicket F)) (os : List ℕ) (n : ℕ) (t : OrderTicket F) where
    -- A new ticket, which is not open yet, takes the next id.
    pub append-Sound : Sound ts os n → is_open t ≡ false → Sound (insert n t ts) os (n + 1)
    append-Sound s shut = record {
      known = λ j. ground (arith, lookup-insert n j t ts, s.known j, s.started);
      opened = λ j. ground (arith, lookup-insert n j t ts, s.opened j, s.known j);
      distinct = s.distinct;
      started = omega (arith, s.started);
    }

    pub append-Grows : Sound ts os n → Grows ts n (insert n t ts) (n + 1)
    append-Grows s = record {
      more = omega arith;
      frozen = λ j. ground (arith, lookup-insert n j t ts, s.known j);
    }
