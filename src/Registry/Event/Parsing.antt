-- ===== src/Registry/Event/Parsing.antt =====
-- src/protocol/schemas.ts: what a parsed event says of the object, and the way back.
use odin_sentinel.Base.{
  ◌≡◌, refl, Bool, true, false, Option, none, some, List, [], ◌∷◌, Text, is_empty, Json, arith,
}
use mathlib.Core.Option.{some-injective}
use odin_sentinel.Base.{ap, subst}
use odin_sentinel.Registry.Schema.{◌>>?◌, when, one_of, non_empty, enumerated}

-- What a chain of optional results that succeeds has gone through.
pub bind-some {ℓ κ} :
    {A : Type ℓ} {B : Type κ} (o : Option A) (f : A → Option B) (b : B)
    → o >>? f ≡ some b
    → (a : A) × (o ≡ some a) × (f a ≡ some b)
unfolding ◌>>?◌
bind-some none f b h = ground arith
bind-some (some a) f b h = (a, refl, h)

pub when-some {ℓ} : {A : Type ℓ} (c : Bool) (a b : A) → when c a ≡ some b → (c ≡ true) × (a ≡ b)
unfolding when
when-some true a b h = (refl, some-injective _ _ h)
when-some false a b h = ground arith

pub enumerated-some :
    (values : List Text) (v : Option Json) (t : Text)
    → enumerated values v ≡ some t
    → (v ≡ some (Json.string t)) × (one_of values t ≡ true)
unfolding enumerated
enumerated-some values none t h = ground arith
enumerated-some values (some (Json.string s)) t h =
    let (c, q) = when-some (one_of values s) s t h in
    (ap (λ x. some (Json.string x)) q, subst (λ x. one_of values x ≡ true) q c)
enumerated-some values (some Json.null) t h = ground arith
enumerated-some values (some (Json.bool b)) t h = ground arith
enumerated-some values (some (Json.number n)) t h = ground arith
enumerated-some values (some (Json.array a)) t h = ground arith
enumerated-some values (some (Json.object f)) t h = ground arith

pub non_empty-some :
    (v : Option Json) (t : Text)
    → non_empty v ≡ some t
    → (v ≡ some (Json.string t)) × (is_empty t ≡ false)
unfolding non_empty
non_empty-some none t h = ground arith
non_empty-some (some (Json.string [])) t h = ground arith
non_empty-some (some (Json.string (c ∷ cs))) t h =
    let q = some-injective _ _ h in
    (ap (λ x. some (Json.string x)) q, subst (λ x. is_empty x ≡ false) q refl)
non_empty-some (some Json.null) t h = ground arith
non_empty-some (some (Json.bool b)) t h = ground arith
non_empty-some (some (Json.number n)) t h = ground arith
non_empty-some (some (Json.array a)) t h = ground arith
non_empty-some (some (Json.object f)) t h = ground arith

pub non_empty-of : (t : Text) → is_empty t ≡ false → non_empty (some (Json.string t)) ≡ some t
unfolding non_empty
non_empty-of [] h = ground arith
non_empty-of (c ∷ cs) h = refl
