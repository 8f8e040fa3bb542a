-- ===== src/Indicators/Fresh.antt =====
-- The cache: what it answers is what a fresh computation gives.
use deployquant.Prelude.{◌≡◌, refl, sym, Option, none, some, List, [], ◌∷◌}
use deployquant.Prelude.Text.{Text}
use deployquant.Prelude.Float.{Float}
use deployquant.Prelude.Eq.{Eq, eq_nat, eq_list}
use deployquant.Prelude.Dict.{Dict}
use deployquant.Exprs.{Value}
use deployquant.Indicators.Series.{Maths, and_then}
use deployquant.Indicators.Plain.{IndNode}
use deployquant.Indicators.Nodes.{Inner}
use deployquant.Indicators.Engine.{Key, Engine, new_engine, close_session, value}
use deployquant.Indicators.Frozen.{and_then-some, some_inj}
use deployquant.Indicators.Answers.{fresh_value_of, Agrees, value-Agrees}
use deployquant.Indicators.Cache.{Coherent, empty-Coherent, close_session-Coherent}
use mathlib.Core.Path.{subst}

-- What a run does: a session closes, the loop sets the prices, a rule asks for a value.
pub data Command {ℓ} (F : Type ℓ) : Type ℓ where
  closing : Text → F → Option F → Option F → Command F
  pricing : Dict Text F → Dict Text F → Command F
  asking : IndNode F → Inner F → Text → Dict Text F → Command F

module _ {ℓ} {F : Type ℓ} ⦃f : Float F⦄ ⦃m : Maths F⦄ where
  module _ ⦃same : Eq (Key F)⦄ where
    unfoldable pub step : Command F → Engine F → Option (Engine F)
    step (closing symbol close high low) e = some (close_session symbol close high low e)
    step (pricing last prior) e = some (record e { last_price = last; prior_close_of = prior })
    step (asking node of symbol params) e = and_then (value node of symbol params e) λ r. some r.0

    unfoldable pub run : List (Command F) → Engine F → Option (Engine F)
    run [] e = some e
    run (c ∷ cs) e = and_then (step c e) λ next. run cs next

    after_value :
        (r : Option (Engine F × Value F)) (w : Option (Value F)) (e : Engine F)
        → Agrees r w
        → and_then r (λ x. some x.0) ≡ some e
        → Coherent e
    unfolding Agrees
    after_value none w e h k = absurd (cc k)
    after_value (some (d, x)) w e h k = subst Coherent (some_inj k) h.1

    run-Coherent :
        (cs : List (Command F)) (e end : Engine F) → Coherent e → run cs e ≡ some end → Coherent end
    unfolding run step Coherent
    run-Coherent [] e end h r = subst Coherent (some_inj r) h
    run-Coherent (closing symbol close high low ∷ cs) e end h r =
        run-Coherent cs _ end (close_session-Coherent symbol close high low e h) r
    run-Coherent (pricing last prior ∷ cs) e end h r =
        run-Coherent cs (record e { last_price = last; prior_close_of = prior }) end h r
    run-Coherent (asking node of symbol params ∷ cs) e end h r =
        let next = and_then-some (step (asking node of symbol params) e) _ end r in
        run-Coherent cs next.0 end
          (after_value (value node of symbol params e) _ next.0
            (value-Agrees node.name node of symbol params e h) next.1.0)
          next.1.1

    agreed :
        (r : Option (Engine F × Value F)) (w : Option (Value F))
        → Agrees r w
        → and_then r (λ x. some x.1) ≡ w
    unfolding Agrees
    agreed none w h = sym h
    agreed (some (e, x)) w h = sym h.0

    -- After any sequence of session closes, price updates and queries that raise nothing, a query
    -- answers, and raises, exactly as a fresh computation on the symbol's present series: no value of
    -- an earlier session, of another symbol or of other parameters is ever served from the cache.
    pub value-run :
        (cs : List (Command F)) (e : Engine F) (node : IndNode F) (of : Inner F) (symbol : Text)
        (params : Dict Text F)
        → run cs new_engine ≡ some e
        → and_then (value node of symbol params e) (λ r. some r.1)
          ≡ fresh_value_of node.name node of symbol params e
    value-run cs e node of symbol params r = agreed _ _ (
        value-Agrees node.name node of symbol params e
          (run-Coherent cs new_engine e (empty-Coherent new_engine refl) r))
