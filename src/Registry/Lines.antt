-- ===== src/Registry/Lines.antt =====
-- src/protocol/event-registry: the text of a log, its lines and its size.
use odin_sentinel.Base.{
  ℕ, ◌+◌, ◌*◌, ◌≤◌, ◌≡◌, refl, ◌⊎◌, inl, inr, Bool, true, false, not, ◌&&◌, List, [], ◌∷◌, ◌++◌,
  Text, split, push_head, is_empty, all, ap, sym, ◌∙◌, arith, leb, ltb, ◌==◌, if◌then◌else◌,
  Bool-cases, length,
}

-- if (lines.length > 0 && lines[lines.length - 1] === "") lines.pop();
unfoldable pub pop_empty : List Text → List Text
pop_empty [] = []
pop_empty (x ∷ []) = if is_empty x then [] else x ∷ []
pop_empty (x ∷ y ∷ rest) = x ∷ pop_empty (y ∷ rest)

unfoldable pub split_log_lines : Text → List Text
unfolding split pop_empty
split_log_lines t = pop_empty (split 10 t)

-- The bytes of a code unit on its own: a surrogate that stands alone becomes U+FFFD.
unfoldable pub unit_bytes : ℕ → ℕ
unit_bytes c = if ltb c 0x80 then 1 else if ltb c 0x800 then 2 else 3

unfoldable pub is_pair : ℕ → ℕ → Bool
is_pair c d = leb 0xD800 c && ltb c 0xDC00 && leb 0xDC00 d && ltb d 0xE000

-- Buffer.byteLength(text, "utf8"), of UTF-16 code units: a surrogate pair takes four bytes.
unfoldable pub byte_length : Text → ℕ
unfolding unit_bytes is_pair
byte_length [] = 0
byte_length (c ∷ []) = unit_bytes c
byte_length (c ∷ d ∷ rest) =
    let tail = byte_length (d ∷ rest) in
    let after = byte_length rest in if is_pair c d then after + 4 else tail + unit_bytes c

-- A log is empty or ends with a newline.
abbrev pub IsTerminated : Text → Type 0
IsTerminated t = (t ≡ []) ⊎ ((a : Text) × (t ≡ a ++ (10 ∷ [])))

abbrev pub IsOneLine : Text → Type 0
IsOneLine t = all (λ c. not (c == 10)) t ≡ true

pub append_assoc {ℓ} : {A : Type ℓ} (xs ys zs : List A) → (xs ++ ys) ++ zs ≡ xs ++ (ys ++ zs)
append_assoc [] ys zs = refl
append_assoc (x ∷ xs) ys zs = ap (λ r. x ∷ r) (append_assoc xs ys zs)

pub append_nil {ℓ} : {A : Type ℓ} (xs : List A) → xs ++ [] ≡ xs
append_nil [] = refl
append_nil (x ∷ xs) = ap (λ r. x ∷ r) (append_nil xs)

push_head-append :
    (c : ℕ) (xs ys : List Text)
    → is_empty xs ≡ false
    → push_head c (xs ++ ys) ≡ push_head c xs ++ ys
unfolding push_head
push_head-append c [] ys h = ground arith
push_head-append c (x ∷ xs) ys h = refl

push_head-is_empty : (c : ℕ) (xs : List Text) → is_empty (push_head c xs) ≡ false
unfolding push_head
push_head-is_empty c [] = refl
push_head-is_empty c (x ∷ xs) = refl

pub split-is_empty : (a : Text) → is_empty (split 10 a) ≡ false
unfolding split
split-is_empty [] = refl
split-is_empty (c ∷ cs) = elim (Bool-cases (c == 10)) [
  | inl h ↦ simp h refl
  | inr h ↦ simp h (push_head-is_empty c (split 10 cs))
]

-- A newline ends a line.
pub split-append : (a b : Text) → split 10 (a ++ (10 ∷ b)) ≡ split 10 a ++ split 10 b
unfolding split
split-append [] b = refl
split-append (c ∷ cs) b = elim (Bool-cases (c == 10)) [
  | inl h ↦ simp (h, split-append cs b) refl
  | inr h ↦
      simp (h, split-append cs b)
        (push_head-append c (split 10 cs) (split 10 b) (split-is_empty cs))
]

pub split-one : (a : Text) → IsOneLine a → split 10 a ≡ a ∷ []
unfolding split push_head
split-one [] h = refl
split-one (c ∷ cs) h = elim (Bool-cases (c == 10)) [
  | inl e ↦ ground (arith, e)
  | inr e ↦ let rest : IsOneLine cs = simp e at h in simp (e, split-one cs rest) refl
]

pop_empty-append : (xs : List Text) → pop_empty (xs ++ ([] ∷ [])) ≡ xs
unfolding pop_empty
pop_empty-append [] = refl
pop_empty-append (x ∷ []) = refl
pop_empty-append (x ∷ y ∷ rest) = ap (λ r. x ∷ r) (pop_empty-append (y ∷ rest))

pub split_log_lines-end : (a : Text) → split_log_lines (a ++ (10 ∷ [])) ≡ split 10 a
unfolding split_log_lines split
split_log_lines-end a = ap pop_empty (split-append a []) ∙ pop_empty-append (split 10 a)

-- Appending a line to a terminated text adds it to the text's lines.
pub split_log_lines-append :
    (t line : Text)
    → IsTerminated t
    → IsOneLine line
    → split_log_lines (t ++ (line ++ (10 ∷ []))) ≡ split_log_lines t ++ (line ∷ [])
unfolding split_log_lines
split_log_lines-append t line (inl h) one = rw h (split_log_lines-end line ∙ split-one line one)
split_log_lines-append t line (inr (a, h)) one = rw h (
    ap split_log_lines (shape a)
    ∙ split_log_lines-end (a ++ (10 ∷ line))
    ∙ split-append a line
    ∙ ap (λ x. split 10 a ++ x) (split-one line one)
    ∙ ap (λ x. x ++ (line ∷ [])) (sym (split_log_lines-end a)))
  where
    shape : (a : Text) → (a ++ (10 ∷ [])) ++ (line ++ (10 ∷ [])) ≡ (a ++ (10 ∷ line)) ++ (10 ∷ [])
    shape [] = refl
    shape (c ∷ cs) = ap (λ x. c ∷ x) (shape cs)

pub append-IsTerminated : (t line : Text) → IsTerminated (t ++ (line ++ (10 ∷ [])))
append-IsTerminated t line = inr (t ++ line, sym (append_assoc t line (10 ∷ [])))

unit_bytes_bounds : (c : ℕ) → (1 ≤ unit_bytes c) × (unit_bytes c ≤ 3)
unfolding unit_bytes
unit_bytes_bounds c = (ground arith, ground arith)

unit_bytes-pair : (c d : ℕ) → is_pair c d ≡ true → unit_bytes c ≡ 3
unfolding unit_bytes is_pair
unit_bytes-pair c d h = ground arith

-- A code unit adds between one and three bytes.
byte_length_step :
    (c : ℕ) (t : Text)
    → (byte_length t + 1 ≤ byte_length (c ∷ t)) × (byte_length (c ∷ t) ≤ byte_length t + 3)
unfolding byte_length
byte_length_step c [] = unit_bytes_bounds c
byte_length_step c (d ∷ t) = elim (Bool-cases (is_pair c d)) [
  | inl h ↦
      (simp h (omega (arith, byte_length_step d t)), simp h (omega (arith, byte_length_step d t)))
  | inr h ↦
      (simp h (omega (arith, unit_bytes_bounds c)), simp h (omega (arith, unit_bytes_bounds c)))
]

-- A text takes a byte at least for each code unit, and three at most.
pub byte_length_bounds : (t : Text) → (length t ≤ byte_length t) × (byte_length t ≤ 3 * length t)
unfolding byte_length
byte_length_bounds [] = (omega arith, omega arith)
byte_length_bounds (c ∷ t) = (
  omega (arith, byte_length_bounds t, byte_length_step c t),
  omega (arith, byte_length_bounds t, byte_length_step c t),
)

-- Where two texts meet, a pair may form, which takes fewer bytes than its halves.
pub byte_length-append : (a b : Text) → byte_length (a ++ b) ≤ byte_length a + byte_length b
unfolding byte_length
byte_length-append [] b = omega arith
byte_length-append (c ∷ []) [] = omega arith
byte_length-append (c ∷ []) (d ∷ b) = elim (Bool-cases (is_pair c d)) [
  | inl h ↦ simp h (omega (arith, unit_bytes-pair c d h, byte_length_step d b))
  | inr h ↦ simp h (omega arith)
]
byte_length-append (c ∷ d ∷ a) b = elim (Bool-cases (is_pair c d)) [
  | inl h ↦ simp h (omega (arith, byte_length-append a b))
  | inr h ↦ simp h (omega (arith, byte_length-append (d ∷ a) b))
]
