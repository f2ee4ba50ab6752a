-- ===== src/Breakout/Globs.antt =====
-- The pattern of `do_GET` and the files that it finds.
use dead_nodes_tell_no_tales.Prelude.{
  Text, Bool, true, false, some, List, [], ◌∷◌, ◌++◌, starts_with, drop-append, text_discrete,
  ℕ_discrete, ◌≡◌, refl, ap, ◌∙◌, arith, Bool-cases, inl, inr, All,
}
use dead_nodes_tell_no_tales.Outcome.{ok}
use dead_nodes_tell_no_tales.Dict.{Dict, keys, get?, has, mem}
use dead_nodes_tell_no_tales.Dict.Laws.{get?_of_has, has_of_get?}
use dead_nodes_tell_no_tales.Dict.Sets.{mem-append, mem-keys}
use dead_nodes_tell_no_tales.Sorting.{insert_before, sort_by, text_le}
use dead_nodes_tell_no_tales.Sorting.Laws.{All-sort_by}
use dead_nodes_tell_no_tales.Exec.{◌>>=◌}
use dead_nodes_tell_no_tales.Breakout.Fields.{
  is_alphanumeric, is_id_char, all_id_chars, is_container_id, ends_with,
}
use dead_nodes_tell_no_tales.Breakout.Requests.{
  Object, file_prefix, json_suffix, artifact_path, has_slash, star_matches, glob_matches, glob,
  open_file, read_all,
}
use dead_nodes_tell_no_tales.Breakout.Http.{Host, artifacts, found, serve_snapshot}

starts_with-append : (p s : Text) → starts_with p (p ++ s) ≡ true
starts_with-append [] s = refl
starts_with-append (c ∷ p) s = ground (arith, starts_with-append p s)

ends_with_self : (suffix : Text) → ends_with suffix suffix ≡ true
unfolding ends_with
ends_with_self [] = ground arith
ends_with_self (c ∷ s) = ground arith

ends_with-append : (s suffix : Text) → ends_with suffix (s ++ suffix) ≡ true
unfolding ends_with
ends_with-append [] suffix = ends_with_self suffix
ends_with-append (c ∷ s) suffix = ground (arith, ends_with-append s suffix)

no_slash : (s : Text) → all_id_chars s ≡ true → has_slash s ≡ false
unfolding all_id_chars is_id_char is_alphanumeric has_slash mem
no_slash [] h = refl
no_slash (c ∷ s) h = ground (arith, no_slash s)

pub all_id_chars-is_container_id : (s : Text) → is_container_id s ≡ true → all_id_chars s ≡ true
unfolding is_container_id all_id_chars is_id_char
all_id_chars-is_container_id [] h = ground arith
all_id_chars-is_container_id (c ∷ s) h = ground arith

-- Identifiers never keep an artifact from its pattern.
pub glob_matches-artifact_path :
    (snapshot_id node : Text)
    → all_id_chars node ≡ true
    → glob_matches snapshot_id (artifact_path snapshot_id node) ≡ true
unfolding glob_matches star_matches has_slash mem ends_with ℕ_discrete
glob_matches-artifact_path snapshot_id node h =
    rw
      (
        starts_with-append (file_prefix snapshot_id) (node ++ json_suffix),
        drop-append (file_prefix snapshot_id) (node ++ json_suffix),
        mem-append ℕ_discrete node json_suffix b'/',
        no_slash node h,
      )
      (ends_with-append node json_suffix)

mem-glob :
    (id : Text) (paths : List Text) (path : Text)
    → mem text_discrete paths path ≡ true
    → glob_matches id path ≡ true
    → mem text_discrete (glob id paths) path ≡ true
unfolding mem glob
mem-glob id [] path h g = h
mem-glob id (p ∷ paths) path h g = ground (arith, h, g, mem-glob id paths path)

mem-insert_before :
    (le : Text → Text → Bool) (x : Text) (ys : List Text) (j : Text)
    → mem text_discrete (insert_before le x ys) j ≡ mem text_discrete (x ∷ ys) j
unfolding mem insert_before
mem-insert_before le x [] j = refl
mem-insert_before le x (y ∷ ys) j = ground (arith, mem-insert_before le x ys j)

mem-sort_by :
    (le : Text → Text → Bool) (xs : List Text) (j : Text)
    → mem text_discrete (sort_by le xs) j ≡ mem text_discrete xs j
unfolding mem sort_by
mem-sort_by le [] j = refl
mem-sort_by le (x ∷ xs) j =
    mem-insert_before le x (sort_by le xs) j ∙ ground (arith, mem-sort_by le xs j)

-- The files exist.
abbrev Exist : Dict Text Object → List Text → Type 0
Exist files = All (λ path. has text_discrete files path ≡ true)

All-weaken :
    (files : Dict Text Object) (p : Text) (o : Object) (paths : List Text)
    → Exist files paths
    → Exist ((p, o) ∷ files) paths
unfolding has
All-weaken files p o [] h = tt
All-weaken files p o (path ∷ paths) h = (ground (arith, h.0), All-weaken files p o paths h.1)

Exist-keys : (files : Dict Text Object) → Exist files (keys files)
unfolding has
Exist-keys [] = tt
Exist-keys ((p, o) ∷ files) = (ground arith, All-weaken files p o (keys files) (Exist-keys files))

All-glob :
    (files : Dict Text Object) (id : Text) (paths : List Text)
    → Exist files paths
    → Exist files (glob id paths)
unfolding glob
All-glob files id [] h = tt
All-glob files id (path ∷ paths) h = elim (Bool-cases (glob_matches id path)) [
  | inl e ↦ rw e (h.0, All-glob files id paths h.1)
  | inr e ↦ rw e (All-glob files id paths h.1)
]

read_all-total :
    (files : Dict Text Object) (paths : List Text)
    → Exist files paths
    → (nodes : List Object) × (read_all files paths ≡ ok nodes)
unfolding read_all open_file
read_all-total files [] h = ([], refl)
read_all-total files (p ∷ paths) h =
    let (o, found) = get?_of_has text_discrete files p h.0 in
    let (nodes, rest) = read_all-total files paths h.1 in (o ∷ nodes, ground (arith, found, rest))

-- The file of a path stands among the files that are read.
read_all-among :
    (files : Dict Text Object) (paths : List Text) (path : Text) (o : Object)
    → Exist files paths
    → mem text_discrete paths path ≡ true
    → get? text_discrete files path ≡ some o
    → (before : List Object) × (after : List Object) × (read_all files paths
        ≡ ok (before ++ o ∷ after))
unfolding read_all open_file mem
read_all-among files [] path o h m g = absurd (ground arith)
read_all-among files (p ∷ paths) path o h m g = elim (text_discrete p path) [
  | yes e ↦
      let (nodes, rest) = read_all-total files paths h.1 in
      ([], nodes, ground (arith, ap (get? text_discrete files) e, g, rest))
  | no ne ↦
      let (first, found) = get?_of_has text_discrete files p h.0 in
      let (before, after, rest) = read_all-among files paths path o h.1 (ground arith) g in
      (first ∷ before, after, ground (arith, found, rest))
]

found-append :
    (id : Text) (before : List Object) (o : Object) (after : List Object)
    → found id (before ++ o ∷ after)
      ≡ record { status = 200; content = artifacts id (before ++ o ∷ after) }
unfolding found
found-append id [] o after = refl
found-append id (b ∷ before) o after = refl

-- A file that the pattern of a snapshot matches is served with the snapshot.
pub serve_snapshot-among :
    (id : Text) (path : Text) (o : Object) (h : Host)
    → is_container_id id ≡ true
    → glob_matches id path ≡ true
    → get? text_discrete h.files path ≡ some o
    → (before : List Object) × (after : List Object) × (serve_snapshot id h
        ≡ (ok (record { status = 200; content = artifacts id (before ++ o ∷ after) }), h))
unfolding serve_snapshot ◌>>=◌
serve_snapshot-among id path o h valid matches there =
    (before, after, rw (valid, read) (rw (found-append id before o after) refl))
  where
    paths : List Text
    paths = sort_by text_le (glob id (keys h.files))

    exist : Exist h.files paths
    exist =
        All-sort_by (λ p. has text_discrete h.files p ≡ true) text_le (glob id (keys h.files))
          (All-glob h.files id (keys h.files) (Exist-keys h.files))

    listed : mem text_discrete paths path ≡ true
    listed =
        mem-sort_by text_le (glob id (keys h.files)) path
        ∙ mem-glob id (keys h.files) path
            (mem-keys text_discrete h.files path ∙ has_of_get? text_discrete h.files path o there)
            matches

    among :
        (before : List Object) × (after : List Object) × (read_all h.files paths
          ≡ ok (before ++ o ∷ after))
    among = read_all-among h.files paths path o exist listed there

    before : List Object
    before = among.0

    after : List Object
    after = among.1

    read : read_all h.files paths ≡ ok (before ++ o ∷ after)
    read = among.2
