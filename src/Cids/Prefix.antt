-- ===== src/Cids/Prefix.antt =====
-- An id is never taken for one of another kind.
use deployquant.Prelude.{ℕ, ◌≡◌, refl, true, ◌++◌, arith}
use deployquant.Prelude.Eq.{eq_nat, eq_list}
use deployquant.Prelude.Text.{Text, codes, starts_with}
use deployquant.Cids.Defs.{exit_cid_code, exit_cid_prefix}

-- The kinds of `_EXIT_CID_CODE`.
pub data ExitKind : Type 0 where
  exit_limit : ExitKind
  exit_stop : ExitKind
  exit_stop_limit : ExitKind
  exit_trailing_stop : ExitKind

unfoldable pub kind_text : ExitKind → Text
kind_text exit_limit = codes "limit"
kind_text exit_stop = codes "stop"
kind_text exit_stop_limit = codes "stop_limit"
kind_text exit_trailing_stop = codes "trailing_stop"

-- The id of a resting exit starts with the prefix of an exit only if both are of one kind, whatever
-- the deployments, symbols and rules, and whatever follows the prefix.
pub exit_cid_prefix-kind :
    (crc : Text → ℕ) (k j : ExitKind) (dep dep' symbol symbol' rule rule' rest : Text)
    → starts_with
        (exit_cid_prefix crc dep (kind_text k) symbol rule ++ rest)
        (exit_cid_prefix crc dep' (kind_text j) symbol' rule')
      ≡ true
    → k ≡ j
unfolding exit_cid_prefix exit_cid_code kind_text
exit_cid_prefix-kind crc exit_limit exit_limit d d' s s' r r' rest h = refl
exit_cid_prefix-kind crc exit_limit exit_stop d d' s s' r r' rest h = ground arith
exit_cid_prefix-kind crc exit_limit exit_stop_limit d d' s s' r r' rest h = ground arith
exit_cid_prefix-kind crc exit_limit exit_trailing_stop d d' s s' r r' rest h = ground arith
exit_cid_prefix-kind crc exit_stop exit_limit d d' s s' r r' rest h = ground arith
exit_cid_prefix-kind crc exit_stop exit_stop d d' s s' r r' rest h = refl
exit_cid_prefix-kind crc exit_stop exit_stop_limit d d' s s' r r' rest h = ground arith
exit_cid_prefix-kind crc exit_stop exit_trailing_stop d d' s s' r r' rest h = ground arith
exit_cid_prefix-kind crc exit_stop_limit exit_limit d d' s s' r r' rest h = ground arith
exit_cid_prefix-kind crc exit_stop_limit exit_stop d d' s s' r r' rest h = ground arith
exit_cid_prefix-kind crc exit_stop_limit exit_stop_limit d d' s s' r r' rest h = refl
exit_cid_prefix-kind crc exit_stop_limit exit_trailing_stop d d' s s' r r' rest h = ground arith
exit_cid_prefix-kind crc exit_trailing_stop exit_limit d d' s s' r r' rest h = ground arith
exit_cid_prefix-kind crc exit_trailing_stop exit_stop d d' s s' r r' rest h = ground arith
exit_cid_prefix-kind crc exit_trailing_stop exit_stop_limit d d' s s' r r' rest h = ground arith
exit_cid_prefix-kind crc exit_trailing_stop exit_trailing_stop d d' s s' r r' rest h = refl
