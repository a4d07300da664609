-- ===== src/Onboarding/Samples.antt =====
-- Concrete pairing codes of src/bioseasy/handoff.py.
use bioseasy.Prelude.{String, ◌≡◌, refl, none, [], ◌∷◌, arith, leb, is_none}
use bioseasy.Onboarding.Handoff.{
  PairingCode, open_code_count, create_code, attempts, find_hash, consume, mark_consumed, new_code,
}
use bioseasy.Onboarding.Handoff.Codes.{FewOpen, here, next, code_made, code_consumed, Reach-FewOpen}
use bioseasy.Onboarding.Handoff.Once.{consume-once, consume-create_code}

abbrev id : String → String
id s = s

abbrev code_a : PairingCode
code_a = new_code id [] 1 1000 "ABCD2345"

few_empty : FewOpen (1000, [])
unfolding open_code_count
few_empty user = omega arith

Reach-FewOpen_example :
    FewOpen (1060, mark_consumed (create_code id ("ABCD2345" ∷ []) [] 1 1000).1 1 "phone" 1060)
Reach-FewOpen_example = Reach-FewOpen {hash = id} few_empty (
    next (next here (code_made 1000 1000 [] ("ABCD2345" ∷ []) 1 (omega arith))) (
      code_consumed 1000 1060 (create_code id ("ABCD2345" ∷ []) [] 1 1000).1 1 "phone"
        (omega arith)))

consume-once_example :
    consume id (mark_consumed (code_a ∷ []) 1 "phone" 1060) "ABCD2345" 1061 ≡ none
unfolding consume find_hash
consume-once_example =
    consume-once {hash = id} (code_a ∷ []) "ABCD2345" 1060 code_a "phone"
      (1060, mark_consumed (code_a ∷ []) 1 "phone" 1060) 1061 refl here

consume-create_code_example : is_none (consume id (code_a ∷ []) "ABCD2345" 1599) ≡ leb 1600 1599
unfolding create_code open_code_count attempts find_hash
consume-create_code_example =
    consume-create_code id ("ABCD2345" ∷ []) [] 1 1000 "ABCD2345" 1600 (code_a ∷ []) 1599 refl
