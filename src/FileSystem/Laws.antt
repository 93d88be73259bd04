-- ===== src/FileSystem/Laws.antt =====
-- What the operations leave at the place that they are about, and at the places apart from it.
use serveo_api_golang.Prelude.{
  ◌≡◌, ◌≢◌, refl, sym, ◌∙◌, ap, Option, none, some, [], ◌∷◌, ◌++◌, arith, if◌then◌else◌,
}
use serveo_api_golang.Text.{Str, text_eq, text_eq_iff, text_eq_refl}
use serveo_api_golang.FileSystem.{
  Owner, Node, dir, file, Entries, no_entries, entry, Place, find, put, erase, get, put_in, change,
}

-- Two places of which neither leads to the other.
pub data Apart : Place → Place → Type 0 where
  differ : {x y : Str} {xs ys : Place} → x ≢ y → Apart (x ∷ xs) (y ∷ ys)
  deeper : {x : Str} {xs ys : Place} → Apart xs ys → Apart (x ∷ xs) (x ∷ ys)

pub Apart-append : {xs ys : Place} (zs : Place) → Apart xs ys → Apart xs (ys ++ zs)
Apart-append zs (differ h) = differ h
Apart-append zs (deeper a) = deeper (Apart-append zs a)

pub no_Apart : {xs : Place} → Apart xs [] → ⊥
no_Apart a = elim a [ ]

pub find-put :
    (x y : Str) (n : Node) (es : Entries)
    → find y (put x n es) ≡ (if text_eq x y then some n else find y es)
unfolding find put
find-put x y n no_entries = refl
find-put x y n (entry z m es) =
    ground (arith, text_eq_iff z x, text_eq_iff z y, text_eq_iff x y, find-put x y n es)

pub find-put_self : (x : Str) (n : Node) (es : Entries) → find x (put x n es) ≡ some n
find-put_self x n es = ground (arith, find-put x x n es, text_eq_refl x)

pub find-put_ne : (x y : Str) (n : Node) (es : Entries) → x ≢ y → find y (put x n es) ≡ find y es
find-put_ne x y n es h = ground (arith, find-put x y n es, text_eq_iff x y)

pub find-erase :
    (x y : Str) (es : Entries) → find y (erase x es) ≡ (if text_eq x y then none else find y es)
unfolding find erase
find-erase x y no_entries = ground arith
find-erase x y (entry z m es) =
    ground (arith, text_eq_iff z x, text_eq_iff z y, text_eq_iff x y, find-erase x y es)

-- a change below a name of a directory, at the name and at another one
pub get-put_in :
    (o : Owner) (x : Str) (es : Entries) (m : Option Node) (t : Node) (xs : Place)
    → put_in o x es m ≡ some t
    → get (x ∷ xs) (some t) ≡ get xs m
unfolding get
get-put_in o x es none t xs e = absurd (ground arith)
get-put_in o x es (some n) t xs e = ground (arith, find-put_self x n es)

pub get-put_in_ne :
    (o : Owner) (x y : Str) (es : Entries) (m : Option Node) (t : Node) (ys : Place)
    → y ≢ x
    → put_in o x es m ≡ some t
    → get (y ∷ ys) (some t) ≡ get (y ∷ ys) (some (dir o es))
unfolding get
get-put_in_ne o x y es none t ys h e = absurd (ground arith)
get-put_in_ne o x y es (some n) t ys h e = ground (arith, find-put_ne x y n es (λ k. h (sym k)))

pub put_in-some :
    (o : Owner) (x : Str) (es : Entries) (m : Option Node) (t : Node)
    → put_in o x es m ≡ some t
    → (n : Node) × (m ≡ some n)
put_in-some o x es none t e = absurd (ground arith)
put_in-some o x es (some n) t e = (n, refl)

pub get-dir :
    (o : Owner) (x : Str) (es : Entries) (xs : Place)
    → get xs (find x es) ≡ get (x ∷ xs) (some (dir o es))
unfolding get
get-dir o x es xs = refl

pub get-change :
    (p : Place) (f : Option Node → Option Node) (m : Option Node) (t : Node)
    → change p f m ≡ some t
    → get p (some t) ≡ f (get p m)
unfolding change get
get-change [] f m t e = sym e
get-change (x ∷ xs) f none t e = absurd (ground arith)
get-change (x ∷ xs) f (some (file o s)) t e = absurd (ground arith)
get-change (x ∷ xs) f (some (dir o es)) t e =
    let (n, below) = put_in-some o x es (change xs f (find x es)) t e in
    get-put_in o x es (change xs f (find x es)) t xs e
    ∙ ap (get xs) below
    ∙ get-change xs f (find x es) n below

pub get-change-Apart :
    (p q : Place) (f : Option Node → Option Node) (m : Option Node) (t : Node)
    → Apart q p
    → change p f m ≡ some t
    → get q (some t) ≡ get q m
unfolding change
get-change-Apart p q f none t (differ h) e = absurd (ground arith)
get-change-Apart p q f (some (file o s)) t (differ h) e = absurd (ground arith)
get-change-Apart p q f (some (dir o es)) t (differ {x} {y} {xs} {ys} h) e =
    get-put_in_ne o y x es (change ys f (find y es)) t xs h e
get-change-Apart p q f none t (deeper a) e = absurd (ground arith)
get-change-Apart p q f (some (file o s)) t (deeper a) e = absurd (ground arith)
get-change-Apart p q f (some (dir o es)) t (deeper {x} {xs} {ys} a) e =
    let (n, below) = put_in-some o x es (change ys f (find x es)) t e in
    get-put_in o x es (change ys f (find x es)) t xs e
    ∙ ap (get xs) below
    ∙ get-change-Apart ys xs f (find x es) n a below
    ∙ get-dir o x es xs
