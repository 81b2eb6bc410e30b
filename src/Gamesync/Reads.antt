-- ===== src/Gamesync/Reads.antt =====
-- gamesync_store.go, gamesync_reads.go: GetDocument, ReadDocuments and ListDocuments. `session` is what
-- authorizedSession answers; none of them changes the state.
use super_mario_bros_wonder.Base.{
  String, ℕ, zero, suc, ℤ, pos, Bool, not, ◌&&◌, Option, none, some, List, [], ◌∷◌, ◌==◌, ◌⊕◌,
  if◌then◌else◌, ltb, eqb, ltb_ℤ, pos_part, length, keep, Dict, get, keys, sort, is_some,
  has_prefix, slashes, str_lt, Result, ok, err, ◌>>=◌, ◌>>◌, refuse_if, invalid_argument,
  unauthenticated, resource_exhausted, unimplemented, not_found,
}
use super_mario_bros_wonder.Auth.{Context}
use super_mario_bros_wonder.Gamesync.{GamesyncSession, Document, document_path}
use super_mario_bros_wonder.Gamesync.Documents.{masked_document}
use super_mario_bros_wonder.Gamesync.State.{Gamesync, table}
use super_mario_bros_wonder.Gamesync.Sessions.{TokenReader, authorized_session}

abbrev authorize : TokenReader → ℕ → Gamesync → Context → Result GamesyncSession
authorize v unix g ctx = elim (authorized_session v unix g ctx "") [
  | none ↦ err unauthenticated
  | some session ↦ ok session
]

abbrev there : Option Document → Result Document
there none = err not_found
there (some d) = ok d

unfoldable pub get_document :
    TokenReader → ℕ → Gamesync → Context → String → Bool → Option (List String) → Result Document
get_document v unix g ctx name in_transaction mask = do
  session ← authorize v unix g ctx
  refuse_if (not (is_some (document_path name))) invalid_argument
  refuse_if in_transaction unimplemented
  document ← there (get (table g.documents session.game_session) name)
  masked_document document mask

pub data ReadResult : Type 0 where
  missing : String → ReadResult
  found : Document → ReadResult

read_one : String → Option Document → Option (List String) → Result ReadResult
read_one name none mask = ok (missing name)
read_one name (some d) mask = do masked ← masked_document d mask; ok (found masked)

unfoldable pub read_each :
    Dict Document → List String → Option (List String) → Result (List ReadResult)
unfolding read_one
read_each docs [] mask = ok []
read_each docs (name ∷ names) mask = do
  refuse_if (not (is_some (document_path name))) invalid_argument
  result ← read_one name (get docs name) mask
  results ← read_each docs names mask
  ok (result ∷ results)

unfoldable pub read_documents :
    TokenReader
    → ℕ
    → Gamesync
    → Context
    → List String
    → Bool
    → Option (List String)
    → Result (List ReadResult)
read_documents v unix g ctx names in_transaction mask = do
  session ← authorize v unix g ctx
  refuse_if in_transaction unimplemented
  refuse_if (ltb 256 (length names)) resource_exhausted
  read_each (table g.documents session.game_session) names mask

pub record ListRequest : Type 0 where
  pub parent : String
  pub page_size : ℤ  -- int32
  pub page_token : String
  pub show_missing : Bool
  pub read_mask : Option (List String)

-- A collection: "docs/" and a name without a slash. A text that begins with "docs/" has more than
-- five bytes unless it is that.
unfoldable pub valid_list : ListRequest → Bool
valid_list req =
    has_prefix req.parent "docs/"
    && eqb (slashes req.parent) 1
    && not (req.parent == "docs/")
    && not (ltb_ℤ req.page_size (pos 0))

-- A page size of 0 is 20, and one above 100 is 100.
unfoldable pub page_limit : ℤ → ℕ
page_limit size =
    if eqb (pos_part size) 0 then 20 else if ltb 100 (pos_part size) then 100 else pos_part size

unfoldable pub listed_names : Dict Document → ListRequest → List String
listed_names docs req = sort (
    keep
      (λ name.
        has_prefix name (req.parent ⊕ "/") && eqb (slashes name) 2 && str_lt req.page_token name)
      (keys docs))

-- The documents up to the limit, and the token if there are more: the last name of the page.
unfoldable pub fill_documents :
    Dict Document
    → Option (List String)
    → ℕ
    → String
    → List String
    → Result (List Document × String)
fill_documents docs mask room last [] = ok ([], "")
fill_documents docs mask zero last (name ∷ names) = ok ([], last)
fill_documents docs mask (suc room) last (name ∷ names) = do
  document ← there (get docs name)
  masked ← masked_document document mask
  rest ← fill_documents docs mask room name names
  ok (masked ∷ rest.0, rest.1)

unfoldable pub list_documents :
    TokenReader → ℕ → Gamesync → Context → ListRequest → Result (List Document × String)
list_documents v unix g ctx req = do
  session ← authorize v unix g ctx
  refuse_if (not (valid_list req)) invalid_argument
  refuse_if req.show_missing unimplemented
  refuse_if (not (req.page_token == "") && not (has_prefix req.page_token (req.parent ⊕ "/")))
      invalid_argument
  let docs = table g.documents session.game_session
  fill_documents docs req.read_mask (page_limit req.page_size) "" (listed_names docs req)
