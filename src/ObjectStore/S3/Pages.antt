-- ===== src/ObjectStore/S3/Pages.antt =====
-- `List` goes through all pages.
use objwal.Prelude.{◌≡◌, true, List, [], ◌∷◌, ◌++◌, Option, none, some}
use objwal.Error.{ok}
use objwal.Std.LittleEndian.{Bytes}
use objwal.ObjectStore.{ObjectMeta}
use objwal.ObjectStore.S3.{Listed, Page, S3Client, metas_listed}

module _ {W : Type 0} (client : S3Client W) (prefix : Bytes) where
  -- From the continuation token on, in the world `w`, the server has the pages of the objects `os`,
  -- and then the world is `w'`.
  pub data Serves : Option Bytes → W → List (List Listed) → W → Type 0 where
    last_page :
        {token : Option Bytes} {w w' : W} (page : Page)
        → client.list_objects prefix token w ≡ (ok page, w')
        → page.is_truncated ≡ none
        → Serves token w (page.contents ∷ []) w'
    full_page :
        {token : Option Bytes} {w v w' : W} {pages : List (List Listed)} (page : Page)
        → client.list_objects prefix token w ≡ (ok page, v)
        → page.is_truncated ≡ some true
        → Serves page.next_token v pages w'
        → Serves token w (page.contents ∷ pages) w'

  abbrev pub all_listed : List (List Listed) → List ObjectMeta
  all_listed [] = []
  all_listed (os ∷ pages) = metas_listed os ++ all_listed pages
