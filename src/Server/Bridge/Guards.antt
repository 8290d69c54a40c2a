-- ===== src/Server/Bridge/Guards.antt =====
-- Which range requests are served.
use thesis_code.Prelude.{
  Bytes, pos, false, inl, inr, none, some, map_result, returned, ◌≡◌, arith, Option-cases,
}
use thesis_code.Etcd.{RangeRequest}
use thesis_code.Server.Types.{Error, Backend}
use thesis_code.Server.Range.{range}
use thesis_code.Server.Bridge.{convert, unsupported_option, bridge_range}

-- No option but the key, the range end, the limit, the revision and the count is used.
pub record IsSupported (r : RangeRequest) : Type 0 where
  pub keys : r.keys_only ≡ false
  pub linear : r.serializable ≡ false
  pub order : r.sort_order ≡ pos 0
  pub target : r.sort_target ≡ pos 0
  pub min_mod : r.min_mod_revision ≡ pos 0
  pub max_mod : r.max_mod_revision ≡ pos 0
  pub min_create : r.min_create_revision ≡ pos 0
  pub max_create : r.max_create_revision ≡ pos 0

unsupported_none : (r : RangeRequest) → unsupported_option r ≡ none → IsSupported r
unfolding unsupported_option
unsupported_none r h = ground arith

supported_none : (r : RangeRequest) → IsSupported r → unsupported_option r ≡ none
unfolding unsupported_option
supported_none r h = ground arith

-- A range request that uses supported options only is answered from LimitedServer.Range.
pub bridge_range-supported :
    {S : Type 0} (backend : Backend S) (r : RangeRequest) (s : S)
    → IsSupported r
    → bridge_range backend r s ≡ map_result convert (range backend r) s
unfolding bridge_range
bridge_range-supported backend r s h = rw (supported_none r h, bridge_range)

-- A range request that uses an option that is not supported is refused with an error that names an
-- option, and the backend is not called.
pub bridge_range-unsupported :
    {S : Type 0} (backend : Backend S) (r : RangeRequest) (s : S)
    → ¬ IsSupported r
    → (field : Bytes) × (bridge_range backend r s
        ≡ returned ((none, some (Error.unsupported field)), s))
unfolding bridge_range
bridge_range-unsupported backend r s h = elim (Option-cases (unsupported_option r)) [
  | inl e ↦ absurd (h (unsupported_none r e))
  | inr (field, e) ↦ (field, rw (e, bridge_range))
]
