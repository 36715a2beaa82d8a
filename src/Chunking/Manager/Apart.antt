-- ===== src/Chunking/Manager/Apart.antt =====
-- Focus files that lie in a focus directory.
use mathlib.Core.Path.{subst}
use deputydev_core.Prelude.{
  List, [], ◌∷◌, ◌++◌, Bool, not, is_empty, true, false, ◌&&◌, Option, some, any_of, any_of-append,
  ◌≡◌, ◌⊎◌, inl, inr, refl, sym, ◌∙◌, arith, Bool-cases, if◌then◌else◌,
}
use deputydev_core.Py.Chars.{Text, text_eq, text_eq_comm, text_eq_sound}
use deputydev_core.Py.Dict.{Dict, has_key, HasDistinctKeys}
use deputydev_core.Py.Result.{ok, err, bind-err, ◌>>=◌}
use deputydev_core.Py.Search.{starts_with}
use deputydev_core.Chunking.Data.{ChunkInfo}
use deputydev_core.Chunking.Manager.{
  files_under, add_new, focus_files_from, get_focus_files_from_focus_directories, del_item,
  key_error, delete_files, all_focus_files, Services, build_focus_query, rerank_related_chunks,
  get_focus_chunk, get_relevant_chunks,
}

abbrev pub is_among : Text → List Text → Bool
is_among p ps = any_of (text_eq p) ps

-- A path that is listed again further on.
abbrev Twice : Text → List Text → Type 0
Twice p [] = ⊥
Twice p (q ∷ qs) = ((text_eq p q ≡ true) × (is_among p qs ≡ true)) ⊎ Twice p qs

Twice-append :
    (p : Text) (ps qs : List Text)
    → is_among p ps ≡ true
    → is_among p qs ≡ true
    → Twice p (ps ++ qs)
Twice-append p [] qs h g = absurd (cc)
Twice-append p (q ∷ ps) qs h g = elim (Bool-cases (text_eq p q)) [
  | inl e ↦ inl (e, ground (arith, any_of-append (text_eq p) ps qs))
  | inr e ↦ inr (Twice-append p ps qs (ground arith) g)
]

has_key-del_item_other :
    (p q : Text) (d : Dict Text) → has_key p d ≡ false → has_key p (del_item q d) ≡ false
unfolding has_key del_item
has_key-del_item_other p q [] h = refl
has_key-del_item_other p q ((j, v) ∷ d) h = ground (arith, has_key-del_item_other p q d)

has_key-del_item :
    (p q : Text) (d : Dict Text)
    → HasDistinctKeys d
    → text_eq p q ≡ true
    → has_key p (del_item q d) ≡ false
unfolding has_key del_item
has_key-del_item p q [] u e = refl
has_key-del_item p q ((j, v) ∷ d) (n, u) e = elim (Bool-cases (text_eq j q)) [
  | inl s ↦ rw s (
      subst (λ (x : Text). has_key x d ≡ false) (text_eq_sound j q s ∙ sym (text_eq_sound p q e)) n)
  | inr s ↦
      let other : text_eq j p ≡ false =
        subst (λ (x : Text). text_eq j x ≡ false) (sym (text_eq_sound p q e)) s in
      rw (s, other) (has_key-del_item p q d u e)
]

HasDistinctKeys-del_item :
    (q : Text) (d : Dict Text) → HasDistinctKeys d → HasDistinctKeys (del_item q d)
unfolding has_key del_item
HasDistinctKeys-del_item q [] u = tt
HasDistinctKeys-del_item q ((j, v) ∷ d) (n, u) = elim (Bool-cases (text_eq j q)) [
  | inl s ↦ rw s u
  | inr s ↦ rw s (has_key-del_item_other j q d n, HasDistinctKeys-del_item q d u)
]

delete_files-absent :
    (p : Text) (ps : List Text) (d : Dict Text)
    → is_among p ps ≡ true
    → has_key p d ≡ false
    → delete_files ps d ≡ err key_error
unfolding delete_files
delete_files-absent p [] d h n = absurd (cc)
delete_files-absent p (q ∷ ps) d h n = elim (Bool-cases (text_eq p q)) [
  | inl e ↦
      let gone : has_key q d ≡ false =
        subst (λ (x : Text). has_key x d ≡ false) (text_eq_sound p q e) n in
      rw gone refl
  | inr e ↦ elim (Bool-cases (has_key q d)) [
    | inl k ↦
        rw k
          (delete_files-absent p ps (del_item q d) (ground arith) (has_key-del_item_other p q d n))
    | inr k ↦ rw k refl
  ]
]

delete_files-Twice :
    (p : Text) (ps : List Text) (d : Dict Text)
    → HasDistinctKeys d
    → Twice p ps
    → delete_files ps d ≡ err key_error
unfolding delete_files
delete_files-Twice p [] d u h = absurd h
delete_files-Twice p (q ∷ ps) d u (inl (e, h)) = elim (Bool-cases (has_key q d)) [
  | inl k ↦ rw k (delete_files-absent p ps (del_item q d) h (has_key-del_item p q d u e))
  | inr k ↦ rw k refl
]
delete_files-Twice p (q ∷ ps) d u (inr h) = elim (Bool-cases (has_key q d)) [
  | inl k ↦ rw k (delete_files-Twice p ps (del_item q d) (HasDistinctKeys-del_item q d u) h)
  | inr k ↦ rw k refl
]

add_new-keeps :
    (p : Text) (found ps : List Text)
    → is_among p found ≡ true
    → is_among p (add_new found ps) ≡ true
unfolding add_new
add_new-keeps p found [] h = h
add_new-keeps p found (q ∷ ps) h =
    add_new-keeps p (if is_among q found then found else found ++ q ∷ []) ps
      (ground (arith, any_of-append (text_eq p) found (q ∷ [])))

add_new-adds :
    (p : Text) (found ps : List Text) → is_among p ps ≡ true → is_among p (add_new found ps) ≡ true
unfolding add_new
add_new-adds p found [] h = absurd (cc)
add_new-adds p found (q ∷ ps) h = elim (Bool-cases (text_eq p q)) [
  | inl e ↦
      add_new-keeps p (if is_among q found then found else found ++ q ∷ []) ps
        (elim (Bool-cases (is_among q found)) [
          | inl m ↦
              rw m (subst (λ (x : Text). is_among x found ≡ true) (sym (text_eq_sound p q e)) m)
          | inr m ↦ rw m (ground (arith, any_of-append (text_eq p) found (q ∷ [])))
        ])
  | inr e ↦ add_new-adds p (if is_among q found then found else found ++ q ∷ []) ps (ground arith)
]

files_under-has :
    (p directory : Text) (d : Dict Text)
    → has_key p d ≡ true
    → starts_with directory p ≡ true
    → is_among p (files_under directory d) ≡ true
unfolding files_under has_key
files_under-has p directory [] h s = absurd (cc)
files_under-has p directory ((j, v) ∷ d) h s = elim (Bool-cases (text_eq p j)) [
  | inl e ↦
      let here : starts_with directory j ≡ true =
        subst (λ (x : Text). starts_with directory x ≡ true) (text_eq_sound p j e) s in
      rw here (ground arith)
  | inr e ↦
      let deeper = files_under-has p directory d (ground (arith, text_eq_comm p j)) s in
      elim (Bool-cases (starts_with directory j)) [
        | inl k ↦ rw k (ground (arith, deeper))
        | inr k ↦ rw k deeper
      ]
]

focus_files_from-keeps :
    (p : Text) (found : List Text) (d : Dict Text) (directories : List Text)
    → is_among p found ≡ true
    → is_among p (focus_files_from found d directories) ≡ true
unfolding focus_files_from
focus_files_from-keeps p found d [] h = h
focus_files_from-keeps p found d (r ∷ rs) h =
    focus_files_from-keeps p (add_new found (files_under r d)) d rs
      (add_new-keeps p found (files_under r d) h)

focus_files_from-has :
    (p : Text) (found : List Text) (d : Dict Text) (directories : List Text)
    → has_key p d ≡ true
    → any_of (λ r. starts_with r p) directories ≡ true
    → is_among p (focus_files_from found d directories) ≡ true
unfolding focus_files_from
focus_files_from-has p found d [] h s = absurd (cc)
focus_files_from-has p found d (r ∷ rs) h s = elim (Bool-cases (starts_with r p)) [
  | inl e ↦
      focus_files_from-keeps p (add_new found (files_under r d)) d rs
        (add_new-adds p found (files_under r d) (files_under-has p r d h e))
  | inr e ↦ focus_files_from-has p (add_new found (files_under r d)) d rs h (ground arith)
]

delete_files-all_focus_files :
    (p : Text) (focus_files directories : List Text) (files : Dict Text)
    → HasDistinctKeys files
    → is_among p focus_files ≡ true
    → has_key p files ≡ true
    → any_of (λ r. starts_with r p) directories ≡ true
    → (all_focus_files (some focus_files) directories files >>= (λ paths. delete_files paths files))
      ≡ err key_error
unfolding all_focus_files get_focus_files_from_focus_directories
delete_files-all_focus_files p focus_files [] files u a h s = absurd (cc)
delete_files-all_focus_files p focus_files (r ∷ rs) files u a h s =
    delete_files-Twice p (focus_files ++ focus_files_from [] files (r ∷ rs)) files u (
      Twice-append p focus_files (focus_files_from [] files (r ∷ rs)) a
        (focus_files_from-has p [] files (r ∷ rs) h s))

-- If a focus file is one of the files and lies under a focus directory, it is deleted twice, so
-- that a call that goes on behind the focus chunks ends in a KeyError.
pub get_relevant_chunks-key_error :
    (services : Services) (query p : Text) (files : Dict Text) (focus_files : List Text)
    (focus_chunks : Option (List Text)) (directories : List Text) (only_focus : Bool)
    (focus : List ChunkInfo)
    → HasDistinctKeys files
    → is_among p focus_files ≡ true
    → has_key p files ≡ true
    → any_of (λ r. starts_with r p) directories ≡ true
    → get_focus_chunk services query (some focus_files) focus_chunks files ≡ ok focus
    → (only_focus && not (is_empty focus)) ≡ false
    → get_relevant_chunks services query files
        (some focus_files)
        focus_chunks
        directories
        only_focus
      ≡ err key_error
unfolding get_relevant_chunks
get_relevant_chunks-key_error services query p files focus_files focus_chunks directories only_focus
      focus u a h s f o =
    rw (f, o)
      (bind-err (all_focus_files (some focus_files) directories files)
        (λ paths. delete_files paths files)
        (λ others. services.search (build_focus_query query focus) others >>= (λ (related, tokens).
          rerank_related_chunks services query related focus
          >>= (λ reranked. ok (reranked, tokens, some focus))))
        key_error (delete_files-all_focus_files p focus_files directories files u a h s))
