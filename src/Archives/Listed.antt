-- ===== src/Archives/Listed.antt =====
-- client/fallback.go: the archive that a gateway sends for a node, and one entry of it in
-- `extractTar`.
use ipfs_mobile.Prelude.{
  ◌≡◌, ◌⊎◌, inl, inr, refl, Option, none, List, [], ◌∷◌, ◌++◌, ap, sym, ◌∙◌, append_assoc,
}
use ipfs_mobile.Prelude.Tests.{Bool-cases}
use ipfs_mobile.Prelude.Lists.{All, All-append}
use ipfs_mobile.Prelude.Text.{Text, text_eq, text_eq_refl}
use ipfs_mobile.Prelude.Dict.{lookup}
use ipfs_mobile.Prelude.Int.{ℤ}
use ipfs_mobile.Errors.{Error, ok}
use ipfs_mobile.FilePath.{slash, join_slash}
use ipfs_mobile.FilePath.Joined.{IsName, IsBelow, IsBelow-nonempty, join_slash-append}
use ipfs_mobile.FilePath.Parents.{dir_of-append}
use ipfs_mobile.Storage.{Body, folder, put}
use ipfs_mobile.Dag.{
  Node, Items, symlink, regular, directory, other, end, item, Outcome, write_regular,
}
use ipfs_mobile.Dag.Places.{IsBelow-name}
use ipfs_mobile.Tar.{
  Header, type_dir, type_reg, Progress, Extracted, extract_flag, extract_at, extract_entry,
  extract_from, continue_with, resolve_tar_path,
}
use ipfs_mobile.Tar.Names.{resolve_tar_path-names}
use ipfs_mobile.Tar.Folders.{Folders, mkdir_all-standing, mkdir_all-name}

-- The entry of a directory, and that of a file.
abbrev pub folder_header : Text → Header
folder_header at = record {
  name = at;
  flag = type_dir;
  body = record { bytes = []; failure = none };
}

abbrev pub file_header : Text → Body → Header
file_header at b = record { name = at; flag = type_reg; body = b }

-- The entries of a node under a name, a directory before what it holds.
unfoldable mutual
  pub archive_of : Text → Node → List Header
  archive_of at (symlink target) = []
  archive_of at (regular b) = file_header at b ∷ []
  archive_of at (directory items) = folder_header at ∷ archive_of_items at items
  archive_of at other = []

  pub archive_of_items : Text → Items → List Header
  archive_of_items at (end e) = []
  archive_of_items at (item name nd rest) =
      archive_of (at ++ (slash ∷ name)) nd ++ archive_of_items at rest

-- Where an entry of an archive goes: `at` is its name, which begins with the root `c`, and it goes
-- to the name `n` in the folder `parent`.
pub record Spot (dir c at parent n : Text) : Type 0 where
  pub names : List Text
  pub all_names : All IsName (c ∷ names)
  pub listed : at ≡ join_slash (c ∷ names)
  pub spelled : dir ++ (slash ∷ at) ≡ parent ++ (slash ∷ n)
  pub below : IsBelow parent
  pub name : IsName n

pub root-Spot : (dir c : Text) → IsBelow dir → IsName c → Spot dir c c dir c
unfolding join_slash
root-Spot dir c below name = record {
  names = [];
  all_names = (name, tt);
  listed = refl;
  spelled = refl;
  below = below;
  name = name;
}

pub child-Spot :
    (dir c at parent n name : Text)
    → Spot dir c at parent n
    → IsName name
    → Spot dir c (at ++ (slash ∷ name)) (parent ++ (slash ∷ n)) name
unfolding join_slash
child-Spot dir c at parent n name s named = record {
  names = s.names ++ name ∷ [];
  all_names = All-append IsName (c ∷ s.names) (name ∷ []) s.all_names (named, tt);
  listed = ap (λ t. t ++ (slash ∷ name)) s.listed ∙ sym (join_slash-append c s.names name []);
  spelled =
      sym (append_assoc dir (slash ∷ at) (slash ∷ name)) ∙ ap (λ t. t ++ (slash ∷ name)) s.spelled;
  below = IsBelow-name parent n s.below s.name;
  name = named;
}

-- The root of the archive is not known yet, or known.
abbrev pub RootedAt : Progress → Text → Type 0
RootedAt p top = (p.root ≡ []) ⊎ (p.root ≡ top)

module _ (dir c at parent n : Text) (spot : Spot dir c at parent n) (below : IsBelow dir) where
  abbrev top : Text
  top = dir ++ (slash ∷ c)

  abbrev path : Text
  path = parent ++ (slash ∷ n)

  resolved : resolve_tar_path dir at ≡ ok (path, top)
  resolved =
      ap (resolve_tar_path dir) spot.listed
      ∙ resolve_tar_path-names dir c spot.names below spot.all_names
      ∙ ap (λ q. ok (q, top)) (ap (λ t. dir ++ (slash ∷ t)) (sym spot.listed) ∙ spot.spelled)

  abbrev rooted : Progress → Progress
  rooted p = record p { root = top }

  flag_taken :
      (limit : ℤ) (p : Progress) (h : Header)
      → RootedAt p top
      → extract_at p h limit (ok (path, top)) ≡ extract_flag (rooted p) path h limit h.flag
  flag_taken limit p h (inl e) = rw (e, text_eq_refl []) refl
  flag_taken limit p h (inr e) = elim (Bool-cases (text_eq p.root [])) [
    | inl b ↦ rw b refl
    | inr b ↦ rw (b, e, text_eq_refl top) refl
  ]

  -- The variables of `extractTar` where a node has been written.
  abbrev pub after : Outcome → Progress
  after r = record { files = r.files; root = top; written = r.written }

  stepped :
      (limit : ℤ) (p : Progress) (h : Header) (hs : List Header) (ending : Option Error)
      (x : Extracted)
      → extract_entry dir limit p h ≡ x
      → x.failure ≡ none
      → extract_from dir limit p (h ∷ hs) ending ≡ extract_from dir limit x.progress hs ending
  unfolding extract_from
  stepped limit p h hs ending x e quiet =
      ap (λ x. continue_with x (extract_from dir limit x.progress hs ending) x.failure) e
      ∙ ap (continue_with x (extract_from dir limit x.progress hs ending)) quiet

  module _ (limit : ℤ) (p : Progress) (hs : List Header) (ending : Option Error)
      (root : RootedAt p top) (standing : Folders p.files parent) where
    -- An entry of a file is written as `materialise` writes a file.
    pub file-step :
        (b : Body)
        → (write_regular p.files path b limit p.written).failure ≡ none
        → extract_from dir limit p (file_header at b ∷ hs) ending
          ≡ extract_from dir limit (after (write_regular p.files path b limit p.written)) hs ending
    unfolding extract_entry
    file-step b quiet = stepped limit p (file_header at b) hs ending _ made quiet
      where
        made : extract_entry dir limit p (file_header at b) ≡ record {
          progress = after (write_regular p.files path b limit p.written);
          failure = (write_regular p.files path b limit p.written).failure;
        }
        made =
            ap (extract_at p (file_header at b) limit) resolved
            ∙ flag_taken limit p (file_header at b) root
            ∙ rw
                (
                  dir_of-append parent n spot.below ((spot.name).0).flat,
                  mkdir_all-standing p.files parent standing,
                )
                refl

    -- An entry of a directory makes it as `materialise` makes a directory.
    pub folder-step :
        lookup path (p.files).entries ≡ none
        → (p.files).refuses path ≡ none
        → extract_from dir limit p (folder_header at ∷ hs) ending
          ≡ extract_from dir limit
              (record { files = put path folder p.files; root = top; written = p.written })
              hs
              ending
    unfolding extract_entry
    folder-step free willing = stepped limit p (folder_header at) hs ending _ made refl
      where
        made : extract_entry dir limit p (folder_header at) ≡ record {
          progress = record { files = put path folder p.files; root = top; written = p.written };
          failure = none;
        }
        made =
            ap (extract_at p (folder_header at) limit) resolved
            ∙ flag_taken limit p (folder_header at) root
            ∙ rw
                (mkdir_all-name p.files parent n (IsBelow-nonempty parent spot.below)
                  ((spot.name).0).flat standing free willing)
                refl
