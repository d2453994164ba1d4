-- ===== src/Manifest/Maps.antt =====
-- What the file maps and `preserve` of `DataManifest` hold under each key.
use haru_quant_cbot.Prelude.{
  ◌≡◌, ◌⊎◌, inl, inr, refl, ap, ◌∙◌, ◌||◌, Option, none, some, List, [], ◌∷◌, ◌++◌, any_of, All, In,
  if◌then◌else◌, Bool-cases, arith,
}
use haru_quant_cbot.Prelude.Dict.{
  Dict, lookup, insert, contains, IsDistinct, lookup-insert, insert-IsDistinct,
}
use haru_quant_cbot.Manifest.{
  FileInfo, Key, key, key_eq, same_key, file_map_from, file_map, preserve,
}

-- Each file stands under its own key.
abbrev pub IsKeyed : Dict Key FileInfo → Type 0
IsKeyed d = All (λ (kf : Key × FileInfo). key kf.1 ≡ kf.0) d

abbrev pub or_else : {A : Type 0} → Option A → Option A → Option A
or_else none other = other
or_else (some a) other = some a

insert-IsKeyed : (f : FileInfo) (d : Dict Key FileInfo) → IsKeyed d → IsKeyed (insert (key f) f d)
unfolding insert
insert-IsKeyed f [] h = ground arith
insert-IsKeyed f ((k, g) ∷ d) h = ground (arith, key_eq.beq_iff k (key f), insert-IsKeyed f d)

file_map_from-IsKeyed :
    (d : Dict Key FileInfo) (files : List FileInfo) → IsKeyed d → IsKeyed (file_map_from d files)
unfolding file_map_from
file_map_from-IsKeyed d [] h = h
file_map_from-IsKeyed d (f ∷ files) h =
    file_map_from-IsKeyed (insert (key f) f d) files (insert-IsKeyed f d h)

file_map_from-IsDistinct :
    (d : Dict Key FileInfo) (files : List FileInfo)
    → IsDistinct d
    → IsDistinct (file_map_from d files)
unfolding file_map_from
file_map_from-IsDistinct d [] h = h
file_map_from-IsDistinct d (f ∷ files) h =
    file_map_from-IsDistinct (insert (key f) f d) files (insert-IsDistinct (key f) f d h)

pub file_map-IsKeyed : (files : List FileInfo) → IsKeyed (file_map files)
unfolding file_map
file_map-IsKeyed files = file_map_from-IsKeyed [] files tt

pub file_map-IsDistinct : (files : List FileInfo) → IsDistinct (file_map files)
unfolding file_map
file_map-IsDistinct files = file_map_from-IsDistinct [] files tt

file_map_from-append :
    (d : Dict Key FileInfo) (xs ys : List FileInfo)
    → file_map_from d (xs ++ ys) ≡ file_map_from (file_map_from d xs) ys
unfolding file_map_from
file_map_from-append d [] ys = refl
file_map_from-append d (f ∷ xs) ys = file_map_from-append (insert (key f) f d) xs ys

file_map_from-found :
    (k : Key) (g : FileInfo) (d : Dict Key FileInfo) (files : List FileInfo)
    → lookup k (file_map_from d files) ≡ some g
    → (In g files × (key g ≡ k)) ⊎ (lookup k d ≡ some g)
unfolding file_map_from
file_map_from-found k g d [] h = inr h
file_map_from-found k g d (f ∷ files) h = ground (
  arith,
  file_map_from-found k g (insert (key f) f d) files h,
  lookup-insert (key f) k f d,
  key_eq.beq_iff (key f) k,
)

-- A file that the map holds is in the list and has the key.
pub file_map-found :
    (k : Key) (g : FileInfo) (files : List FileInfo)
    → lookup k (file_map files) ≡ some g
    → In g files × (key g ≡ k)
unfolding file_map lookup
file_map-found k g files h = ground (arith, file_map_from-found k g [] files h)

contains-file_map_from :
    (k : Key) (d : Dict Key FileInfo) (files : List FileInfo)
    → contains k (file_map_from d files) ≡ (any_of (λ g. same_key (key g) k) files || contains k d)
unfolding file_map_from same_key
contains-file_map_from k d [] = refl
contains-file_map_from k d (f ∷ files) =
    ground (arith, contains-file_map_from k (insert (key f) f d) files, lookup-insert (key f) k f d)

-- The map has the keys of the list.
pub contains-file_map :
    (k : Key) (files : List FileInfo)
    → contains k (file_map files) ≡ any_of (λ g. same_key (key g) k) files
unfolding file_map lookup
contains-file_map k files = ground (arith, contains-file_map_from k [] files)

lookup-snoc :
    (j : Key) (f : FileInfo) (files : List FileInfo)
    → lookup j (file_map (files ++ f ∷ []))
      ≡ (if same_key (key f) j then some f else lookup j (file_map files))
unfolding file_map file_map_from same_key
lookup-snoc j f files =
    ap (lookup j) (file_map_from-append [] files (f ∷ []))
    ∙ lookup-insert (key f) j f (file_map_from [] files)

-- After `preserve` each key has the file of the list, or else the old one.
pub lookup-preserve :
    (j : Key) (files : List FileInfo) (old : Dict Key FileInfo)
    → IsKeyed old
    → IsDistinct old
    → lookup j (file_map (preserve files old)) ≡ or_else (lookup j (file_map files)) (lookup j old)
unfolding preserve lookup same_key
lookup-preserve j files [] keyed distinct = ground arith
lookup-preserve j files ((k, f) ∷ old) keyed distinct =
    elim (Bool-cases (any_of (λ g. same_key (key g) k) files)) [
      | inl there ↦ rw there (
          ground (
            arith,
            lookup-preserve j files old keyed.1 distinct.1,
            contains-file_map k files,
            key_eq.beq_iff k j,
            there,
          ))
      | inr new ↦ rw new (
          ground (
            arith,
            lookup-preserve j (files ++ f ∷ []) old keyed.1 distinct.1,
            contains-file_map k files,
            lookup-snoc j f files,
            key_eq.beq_iff k j,
            new,
            keyed.0,
            distinct.0,
          ))
    ]
