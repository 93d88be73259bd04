-- ===== src/FileSystem/Directories.antt =====
-- What MkdirAll and RemoveAll leave.
use serveo_api_golang.Prelude.{
  ◌≡◌, refl, sym, ◌∙◌, ap, Option, none, some, [], ◌∷◌, arith, Option-cases, Bool-cases, inl, inr,
}
use serveo_api_golang.Text.{Str, text_eq, text_eq_iff, text_eq_refl}
use serveo_api_golang.FileSystem.{
  Owner, Node, dir, file, Entries, no_entries, Place, find, get, put_in, mkdir_all, remove_all,
}
use serveo_api_golang.FileSystem.Laws.{
  Apart, differ, deeper, no_Apart, get-put_in, get-put_in_ne, put_in-some, get-dir, find-erase,
}

pub get-mkdir_all :
    (me : Owner) (p : Place) (m : Option Node) (t : Node)
    → mkdir_all me p m ≡ some t
    → (o : Owner) × (es : Entries) × (get p (some t) ≡ some (dir o es))
unfolding mkdir_all get
get-mkdir_all me [] none t e = (me, no_entries, sym e)
get-mkdir_all me [] (some (dir o es)) t e = (o, es, sym e)
get-mkdir_all me [] (some (file o s)) t e = absurd (ground arith)
get-mkdir_all me (x ∷ xs) none t e =
    let (n, below) = put_in-some me x no_entries (mkdir_all me xs none) t e in
    let (o, es, at) = get-mkdir_all me xs none n below in
    (o, es, get-put_in me x no_entries (mkdir_all me xs none) t xs e ∙ ap (get xs) below ∙ at)
get-mkdir_all me (x ∷ xs) (some (file o s)) t e = absurd (ground arith)
get-mkdir_all me (x ∷ xs) (some (dir o' es')) t e =
    let (n, below) = put_in-some o' x es' (mkdir_all me xs (find x es')) t e in
    let (o, es, at) = get-mkdir_all me xs (find x es') n below in
    (o, es, get-put_in o' x es' (mkdir_all me xs (find x es')) t xs e ∙ ap (get xs) below ∙ at)

get-none : (q : Place) → get q none ≡ none
unfolding get
get-none [] = refl
get-none (x ∷ xs) = refl

get_new_dir : (o : Owner) (x : Str) (xs : Place) → get (x ∷ xs) (some (dir o no_entries)) ≡ none
unfolding get find
get_new_dir o x xs = get-none xs

pub get-mkdir_all-Apart :
    (me : Owner) (p q : Place) (m : Option Node) (t : Node)
    → Apart q p
    → mkdir_all me p m ≡ some t
    → get q (some t) ≡ get q m
unfolding mkdir_all
get-mkdir_all-Apart me p q (some (file o s)) t (differ h) e = absurd (ground arith)
get-mkdir_all-Apart me p q none t (differ {x} {y} {xs} {ys} h) e =
    get-put_in_ne me y x no_entries (mkdir_all me ys none) t xs h e
    ∙ get_new_dir me x xs
    ∙ sym (get-none (x ∷ xs))
get-mkdir_all-Apart me p q (some (dir o es)) t (differ {x} {y} {xs} {ys} h) e =
    get-put_in_ne o y x es (mkdir_all me ys (find y es)) t xs h e
get-mkdir_all-Apart me p q (some (file o s)) t (deeper a) e = absurd (ground arith)
get-mkdir_all-Apart me p q none t (deeper {x} {xs} {ys} a) e =
    let (n, below) = put_in-some me x no_entries (mkdir_all me ys none) t e in
    get-put_in me x no_entries (mkdir_all me ys none) t xs e
    ∙ ap (get xs) below
    ∙ get-mkdir_all-Apart me ys xs none n a below
    ∙ get-none xs
    ∙ sym (get-none (x ∷ xs))
get-mkdir_all-Apart me p q (some (dir o es)) t (deeper {x} {xs} {ys} a) e =
    let (n, below) = put_in-some o x es (mkdir_all me ys (find x es)) t e in
    get-put_in o x es (mkdir_all me ys (find x es)) t xs e
    ∙ ap (get xs) below
    ∙ get-mkdir_all-Apart me ys xs (find x es) n a below
    ∙ get-dir o x es xs

-- MkdirAll takes nothing away.
pub get-mkdir_all_file :
    (me : Owner) (p q : Place) (m : Option Node) (t : Node) (o : Owner) (s : Str)
    → mkdir_all me p m ≡ some t
    → get q m ≡ some (file o s)
    → get q (some t) ≡ some (file o s)
unfolding mkdir_all get
get-mkdir_all_file me [] q none t o s e h = absurd (ground (arith, get-none q))
get-mkdir_all_file me [] q (some (dir o' es)) t o s e h = ap (get q) (sym e) ∙ h
get-mkdir_all_file me [] q (some (file o' s')) t o s e h = absurd (ground arith)
get-mkdir_all_file me (x ∷ xs) q none t o s e h = absurd (ground (arith, get-none q))
get-mkdir_all_file me (x ∷ xs) q (some (file o' s')) t o s e h = absurd (ground arith)
get-mkdir_all_file me (x ∷ xs) [] (some (dir o' es)) t o s e h = absurd (ground arith)
get-mkdir_all_file me (x ∷ xs) (y ∷ ys) (some (dir o' es)) t o s e h =
    elim (Bool-cases (text_eq y x)) [
      | inl same ↦
          let (n, below) = put_in-some o' x es (mkdir_all me xs (find x es)) t e in
          let y_x : y ≡ x = (text_eq_iff y x).0 same in
          ap (λ z. get (z ∷ ys) (some t)) y_x
          ∙ get-put_in o' x es (mkdir_all me xs (find x es)) t ys e
          ∙ ap (get ys) below
          ∙ get-mkdir_all_file me xs ys (find x es) n o s below
              (ap (λ z. get ys (find z es)) (sym y_x) ∙ h)
      | inr other ↦
          get-put_in_ne o' x y es (mkdir_all me xs (find x es)) t ys
            (λ k. ground (arith, (text_eq_iff y x).1 k)) e
          ∙ h
    ]

pub get-remove_all :
    (x : Str) (xs : Place) (n t : Node)
    → remove_all (x ∷ xs) n ≡ some t
    → get (x ∷ xs) (some t) ≡ none
unfolding remove_all get
get-remove_all x xs (file o s) t e = absurd (ground arith)
get-remove_all x [] (dir o es) t e = ground (arith, find-erase x x es, text_eq_refl x)
get-remove_all x (y ∷ ys) (dir o es) t e = elim (Option-cases (find x es)) [
  | inl missing ↦ ground (arith, get-none (y ∷ ys))
  | inr (n, there) ↦
      let e' : put_in o x es (remove_all (y ∷ ys) n) ≡ some t = ground arith in
      let (n', below) = put_in-some o x es (remove_all (y ∷ ys) n) t e' in
      get-put_in o x es (remove_all (y ∷ ys) n) t (y ∷ ys) e'
      ∙ ap (get (y ∷ ys)) below
      ∙ get-remove_all y ys n n' below
]

pub get-remove_all-Apart :
    (p q : Place) (n t : Node)
    → Apart q p
    → remove_all p n ≡ some t
    → get q (some t) ≡ get q (some n)
unfolding remove_all get
get-remove_all-Apart p q (file o s) t (differ h) e = absurd (ground arith)
get-remove_all-Apart p q (file o s) t (deeper a) e = absurd (ground arith)
get-remove_all-Apart p q (dir o es) t (differ {x} {y} {xs} {ys = []} h) e =
    ground (arith, find-erase y x es, text_eq_iff y x)
get-remove_all-Apart p q (dir o es) t (differ {x} {y} {xs} {ys = z ∷ zs} h) e =
    elim (Option-cases (find y es)) [
      | inl missing ↦ ground arith
      | inr (n, there) ↦ get-put_in_ne o y x es (remove_all (z ∷ zs) n) t xs h (ground arith)
    ]
get-remove_all-Apart p q (dir o es) t (deeper {x} {xs} {ys = []} a) e = absurd (no_Apart a)
get-remove_all-Apart p q (dir o es) t (deeper {x} {xs} {ys = z ∷ zs} a) e =
    elim (Option-cases (find x es)) [
      | inl missing ↦ ground arith
      | inr (n, there) ↦
          let e' : put_in o x es (remove_all (z ∷ zs) n) ≡ some t = ground arith in
          let (n', below) = put_in-some o x es (remove_all (z ∷ zs) n) t e' in
          get-put_in o x es (remove_all (z ∷ zs) n) t xs e'
          ∙ ap (get xs) below
          ∙ get-remove_all-Apart (z ∷ zs) xs n n' a below
          ∙ ap (get xs) (sym there)
    ]
