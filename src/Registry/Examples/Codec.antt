-- ===== src/Registry/Examples/Codec.antt =====
-- A text form of JSON values on one line, for the runs of the registry: a tag for each constructor,
-- each code unit moved up by 12, and 11 at the end of a string.
use odin_sentinel.Base.{
  ℕ, zero, suc, ◌+◌, ◌-◌, ◌≤◌, ◌≡◌, refl, true, false, Option, none, some, [], ◌∷◌, Text, ap, arith,
  ◌==◌, if◌then◌else◌, ℤ, pos, negsuc, int, fraction, Num, Json, Items, Fields, end, entry, nil,
  cons,
}
use odin_sentinel.Registry.Lines.{IsOneLine}
use odin_sentinel.Registry.Schema.{◌>>?◌}

unfoldable write_text : Text → Text → Text
write_text [] r = 11 ∷ r
write_text (c ∷ cs) r = (c + 12) ∷ write_text cs r

unfoldable write_number : Num → Text → Text
write_number fraction r = 14 ∷ r
write_number (int (pos n)) r = 15 ∷ (n + 12) ∷ r
write_number (int (negsuc n)) r = 16 ∷ (n + 12) ∷ r

unfoldable mutual
  unfolding write_text write_number

  write : Json → Text → Text
  write Json.null r = 11 ∷ r
  write (Json.bool true) r = 12 ∷ r
  write (Json.bool false) r = 13 ∷ r
  write (Json.number n) r = write_number n r
  write (Json.string t) r = 17 ∷ write_text t r
  write (Json.array items) r = 18 ∷ write_items items r
  write (Json.object f) r = 19 ∷ write_fields f r

  write_items : Items → Text → Text
  write_items nil r = 20 ∷ r
  write_items (cons j rest) r = 21 ∷ write j (write_items rest r)

  write_fields : Fields → Text → Text
  write_fields end r = 20 ∷ r
  write_fields (entry k v rest) r = 21 ∷ write_text k (write v (write_fields rest r))

unfoldable mutual
  depth : Json → ℕ
  depth Json.null = 1
  depth (Json.bool b) = 1
  depth (Json.number n) = 1
  depth (Json.string t) = 1
  depth (Json.array items) = depth_items items + 1
  depth (Json.object f) = depth_fields f + 1

  depth_items : Items → ℕ
  depth_items nil = 1
  depth_items (cons j rest) = depth j + depth_items rest + 1

  depth_fields : Fields → ℕ
  depth_fields end = 1
  depth_fields (entry k v rest) = depth v + depth_fields rest + 1

unfoldable read_text : Text → Text × Text
read_text [] = ([], [])
read_text (c ∷ cs) = let (t, r) = read_text cs in if c == 11 then ([], cs) else ((c - 12) ∷ t, r)

pub data Tag : Type 0 where
  nothing yes no other up down words listed keyed last next wrong : Tag

unfoldable tag : ℕ → Tag
tag c =
    if c == 11
    then nothing
    else if c == 12
    then yes
    else if c == 13
    then no
    else if c == 14
    then other
    else if c == 15
    then up
    else if c == 16
    then down
    else if c == 17
    then words
    else if c == 18
    then listed
    else if c == 19
    then keyed
    else if c == 20
    then last
    else if c == 21
    then next
    else wrong

unfoldable read_number : (ℕ → ℤ) → Text → Option (Json × Text)
read_number sign [] = none
read_number sign (c ∷ r) = some (Json.number (int (sign (c - 12))), r)

unfoldable mutual
  unfolding tag read_text read_number ◌>>?◌

  read : ℕ → Text → Option (Json × Text)
  read zero t = none
  read (suc n) [] = none
  read (suc n) (c ∷ r) = elim (tag c) [
    | nothing ↦ some (Json.null, r)
    | yes ↦ some (Json.bool true, r)
    | no ↦ some (Json.bool false, r)
    | other ↦ some (Json.number fraction, r)
    | up ↦ read_number pos r
    | down ↦ read_number negsuc r
    | words ↦ some (Json.string ((read_text r).0), (read_text r).1)
    | listed ↦ read_items n r >>? λ p. some (Json.array p.0, p.1)
    | keyed ↦ read_fields n r >>? λ p. some (Json.object p.0, p.1)
    | last ↦ none
    | next ↦ none
    | wrong ↦ none
  ]

  read_items : ℕ → Text → Option (Items × Text)
  read_items zero t = none
  read_items (suc n) [] = none
  read_items (suc n) (c ∷ r) = elim (tag c) [
    | last ↦ some (nil, r)
    | next ↦ read n r >>? λ p. read_items n p.1 >>? λ q. some (cons p.0 q.0, q.1)
    | _ ↦ none
  ]

  read_fields : ℕ → Text → Option (Fields × Text)
  read_fields zero t = none
  read_fields (suc n) [] = none
  read_fields (suc n) (c ∷ r) = elim (tag c) [
    | last ↦ some (end, r)
    | next ↦ read n ((read_text r).1) >>? λ p.
        read_fields n p.1 >>? λ q. some (entry ((read_text r).0) p.0 q.0, q.1)
    | _ ↦ none
  ]

read_text-write_text : (t r : Text) → read_text (write_text t r) ≡ (t, r)
unfolding read_text write_text
read_text-write_text [] r = refl
read_text-write_text (c ∷ cs) r = ground (arith, read_text-write_text cs r)

depth-positive : (j : Json) → 1 ≤ depth j
unfolding depth
depth-positive Json.null = omega arith
depth-positive (Json.bool b) = omega arith
depth-positive (Json.number n) = omega arith
depth-positive (Json.string t) = omega arith
depth-positive (Json.array items) = omega arith
depth-positive (Json.object f) = omega arith

depth_items-positive : (items : Items) → 1 ≤ depth_items items
unfolding depth
depth_items-positive nil = omega arith
depth_items-positive (cons j rest) = omega arith

depth_fields-positive : (f : Fields) → 1 ≤ depth_fields f
unfolding depth
depth_fields-positive end = omega arith
depth_fields-positive (entry k v rest) = omega arith

mutual
  unfolding read write depth read_number tag read_text write_text write_number ◌>>?◌

  read-write : (n : ℕ) (j : Json) (r : Text) → depth j ≤ n → read n (write j r) ≡ some (j, r)
  read-write zero j r h = ground (arith, depth-positive j)
  read-write (suc n) Json.null r h = refl
  read-write (suc n) (Json.bool true) r h = refl
  read-write (suc n) (Json.bool false) r h = refl
  read-write (suc n) (Json.number fraction) r h = refl
  read-write (suc n) (Json.number (int (pos k))) r h =
      ap (λ x. some (Json.number (int (pos x)), r)) (omega arith)
  read-write (suc n) (Json.number (int (negsuc k))) r h =
      ap (λ x. some (Json.number (int (negsuc x)), r)) (omega arith)
  read-write (suc n) (Json.string t) r h = simp (read_text-write_text t r) refl
  read-write (suc n) (Json.array items) r h =
      simp (read_items-write_items n items r (omega arith)) refl
  read-write (suc n) (Json.object f) r h = simp (read_fields-write_fields n f r (omega arith)) refl

  read_items-write_items :
      (n : ℕ) (items : Items) (r : Text)
      → depth_items items ≤ n
      → read_items n (write_items items r) ≡ some (items, r)
  read_items-write_items zero items r h = ground (arith, depth_items-positive items)
  read_items-write_items (suc n) nil r h = refl
  read_items-write_items (suc n) (cons j rest) r h =
      simp
        (
          read-write n j (write_items rest r) (omega arith),
          read_items-write_items n rest r (omega arith),
        )
        refl

  read_fields-write_fields :
      (n : ℕ) (f : Fields) (r : Text)
      → depth_fields f ≤ n
      → read_fields n (write_fields f r) ≡ some (f, r)
  read_fields-write_fields zero f r h = ground (arith, depth_fields-positive f)
  read_fields-write_fields (suc n) end r h = refl
  read_fields-write_fields (suc n) (entry k v rest) r h =
      simp
        (
          read_text-write_text k (write v (write_fields rest r)),
          read-write n v (write_fields rest r) (omega arith),
          read_fields-write_fields n rest r (omega arith),
        )
        refl

write_text-IsOneLine : (t r : Text) → IsOneLine r → IsOneLine (write_text t r)
unfolding write_text
write_text-IsOneLine [] r h = h
write_text-IsOneLine (c ∷ cs) r h = ground (arith, write_text-IsOneLine cs r h)

write_number-IsOneLine : (n : Num) (r : Text) → IsOneLine r → IsOneLine (write_number n r)
unfolding write_number
write_number-IsOneLine fraction r h = h
write_number-IsOneLine (int (pos n)) r h = ground (arith, h)
write_number-IsOneLine (int (negsuc n)) r h = ground (arith, h)

mutual
  unfolding write write_text write_number

  write-IsOneLine : (j : Json) (r : Text) → IsOneLine r → IsOneLine (write j r)
  write-IsOneLine Json.null r h = h
  write-IsOneLine (Json.bool true) r h = h
  write-IsOneLine (Json.bool false) r h = h
  write-IsOneLine (Json.number n) r h = write_number-IsOneLine n r h
  write-IsOneLine (Json.string t) r h = write_text-IsOneLine t r h
  write-IsOneLine (Json.array items) r h = write_items-IsOneLine items r h
  write-IsOneLine (Json.object f) r h = write_fields-IsOneLine f r h

  write_items-IsOneLine : (items : Items) (r : Text) → IsOneLine r → IsOneLine (write_items items r)
  write_items-IsOneLine nil r h = h
  write_items-IsOneLine (cons j rest) r h = write-IsOneLine j _ (write_items-IsOneLine rest r h)

  write_fields-IsOneLine : (f : Fields) (r : Text) → IsOneLine r → IsOneLine (write_fields f r)
  write_fields-IsOneLine end r h = h
  write_fields-IsOneLine (entry k v rest) r h =
      write_text-IsOneLine k _ (write-IsOneLine v _ (write_fields-IsOneLine rest r h))

-- The text of a value: its depth, which bounds the reading, and the value.
unfoldable pub json_text : Json → Text
unfolding write depth
json_text j = (depth j + 12) ∷ write j []

unfoldable pub json_parse : Text → Option Json
unfolding read ◌>>?◌
json_parse [] = none
json_parse (c ∷ t) = read (c - 12) t >>? λ p. some p.0

pub json_parse-json_text : (j : Json) → json_parse (json_text j) ≡ some j
unfolding json_parse json_text ◌>>?◌
json_parse-json_text j =
    ap (λ x. x >>? λ p. some p.0) (read-write (depth j + 12 - 12) j [] (omega arith))

pub json_text-IsOneLine : (j : Json) → IsOneLine (json_text j)
unfolding json_text
json_text-IsOneLine j = ground (arith, write-IsOneLine j [] refl)
