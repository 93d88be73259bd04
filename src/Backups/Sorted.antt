-- ===== src/Backups/Sorted.antt =====
-- What sorting by names and flattening keep of a list.
use serveo_api_golang.Prelude.{List, [], ◌∷◌, ◌++◌, inl, inr, Bool-cases, All, Some, here, there}
use serveo_api_golang.Text.{Str}
use serveo_api_golang.Backups.Archive.{text_leb, insert, by_name, flatten}

module _ {A : Type 0} where
  module _ (P : A → Type 0) where
    All-append : (xs ys : List A) → All P xs → All P ys → All P (xs ++ ys)
    All-append [] ys hs ks = ks
    All-append (x ∷ xs) ys (h, hs) ks = (h, All-append xs ys hs ks)

    Some-before : (xs ys : List A) → Some P xs → Some P (xs ++ ys)
    Some-before [] ys h = elim h [ ]
    Some-before (x ∷ xs) ys (here h) = here h
    Some-before (x ∷ xs) ys (there h) = there (Some-before xs ys h)

    Some-after : (xs ys : List A) → Some P ys → Some P (xs ++ ys)
    Some-after [] ys h = h
    Some-after (x ∷ xs) ys h = there (Some-after xs ys h)

    pub All-flatten : (bs : List (Str × List A)) → All (λ b. All P b.1) bs → All P (flatten bs)
    All-flatten [] hs = tt
    All-flatten ((name, xs) ∷ bs) (h, hs) = All-append xs (flatten bs) h (All-flatten bs hs)

    pub Some-flatten : (bs : List (Str × List A)) → Some (λ b. Some P b.1) bs → Some P (flatten bs)
    Some-flatten [] h = elim h [ ]
    Some-flatten ((name, xs) ∷ bs) (here h) = Some-before xs (flatten bs) h
    Some-flatten ((name, xs) ∷ bs) (there h) = Some-after xs (flatten bs) (Some-flatten bs h)

  module _ (P : Str × A → Type 0) where
    All-insert :
        (name : Str) (x : A) (bs : List (Str × A))
        → P (name, x)
        → All P bs
        → All P (insert name x bs)
    unfolding insert
    All-insert name x [] h hs = (h, tt)
    All-insert name x ((n, y) ∷ bs) h (k, hs) = elim (Bool-cases (text_leb name n)) [
      | inl before ↦ rw before (h, (k, hs))
      | inr later ↦ rw later (k, All-insert name x bs h hs)
    ]

    pub All-by_name : (bs : List (Str × A)) → All P bs → All P (by_name bs)
    unfolding by_name
    All-by_name [] hs = tt
    All-by_name ((name, x) ∷ bs) (h, hs) = All-insert name x (by_name bs) h (All-by_name bs hs)

    Some-insert_here :
        (name : Str) (x : A) (bs : List (Str × A)) → P (name, x) → Some P (insert name x bs)
    unfolding insert
    Some-insert_here name x [] h = here h
    Some-insert_here name x ((n, y) ∷ bs) h = elim (Bool-cases (text_leb name n)) [
      | inl before ↦ rw before (here h)
      | inr later ↦ rw later (there (Some-insert_here name x bs h))
    ]

    Some-insert_there :
        (name : Str) (x : A) (bs : List (Str × A)) → Some P bs → Some P (insert name x bs)
    unfolding insert
    Some-insert_there name x [] h = elim h [ ]
    Some-insert_there name x ((n, y) ∷ bs) (here k) = elim (Bool-cases (text_leb name n)) [
      | inl before ↦ rw before (there (here k))
      | inr later ↦ rw later (here k)
    ]
    Some-insert_there name x ((n, y) ∷ bs) (there k) = elim (Bool-cases (text_leb name n)) [
      | inl before ↦ rw before (there (there k))
      | inr later ↦ rw later (there (Some-insert_there name x bs k))
    ]

    pub Some-by_name : (bs : List (Str × A)) → Some P bs → Some P (by_name bs)
    unfolding by_name
    Some-by_name [] h = elim h [ ]
    Some-by_name ((name, x) ∷ bs) (here h) = Some-insert_here name x (by_name bs) h
    Some-by_name ((name, x) ∷ bs) (there h) =
        Some-insert_there name x (by_name bs) (Some-by_name bs h)
