-- ===== src/Gamesync/Expired.antt =====
-- gamesync_store.go: what is left after expireSession.
use super_mario_bros_wonder.Base.{
  String, ℕ, Bool, true, false, ◌&&◌, ◌||◌, Option, none, some, List, [], ◌∷◌, ◌++◌, ◌==◌, ◌≡◌, ◌≢◌,
  refl, sym, ap, ◌∙◌, arith, inl, inr, if◌then◌else◌, any, keep, keys, any-append, Bool-cases,
  Option-cases, eq_iff, eq_refl, Dict, get, put, delete, get-put_self, get-delete, subst,
}
use super_mario_bros_wonder.Registry.{SessionRegistry, member, depart}
use super_mario_bros_wonder.Registry.Depart.{member-depart}
use super_mario_bros_wonder.Gamesync.{GamesyncSession, Document}
use super_mario_bros_wonder.Gamesync.Documents.{check_precondition}
use super_mario_bros_wonder.Gamesync.Writable.{owner_of}
use super_mario_bros_wonder.Gamesync.State.{
  Gamesync, Deferment, WriteOperation, delete_document, update_document, merge_document,
  transform_document, no_operation, table,
}
use super_mario_bros_wonder.Gamesync.Sessions.{user_document_name}
use super_mario_bros_wonder.Gamesync.Streams.{subscribers_of}
use super_mario_bros_wonder.Gamesync.Expiry.{
  deferred_names, all_deferred, owned_names, is_owner, distinct, expired_names, delete_all,
  delete_from, remove_session, publish_names, passes, expiring, expire_session,
}

abbrev has : String → List String → Bool
has name names = any (λ n. n == name) names

-- Names under a test on the key alone: equal keys pass alike.
has-distinct : (name : String) (names : List String) → has name (distinct names) ≡ has name names
unfolding distinct
has-distinct name [] = refl
has-distinct name (n ∷ names) = elim (Bool-cases (has n (distinct names))) [
  | inr g ↦ rw g (ap (λ b. (n == name) || b) (has-distinct name names))
  | inl g ↦ rw g (elim (Bool-cases (n == name)) [
    | inl e ↦ rw e (subst (λ k. has k (distinct names) ≡ true) ((eq_iff n name).0 e) g)
    | inr e ↦ rw e (has-distinct name names)
  ])
]

get-delete_all :
    {V : Type 0} (names : List String) (m : Dict V) (name : String)
    → get (delete_all m names) name ≡ (if has name names then none else get m name)
unfolding delete_all
get-delete_all [] m name = refl
get-delete_all (n ∷ names) m name =
    ground (arith, get-delete_all names (delete m n) name, get-delete m n name)

delete_all-nil : {V : Type 0} (names : List String) → delete_all {V = V} [] names ≡ []
unfolding delete_all delete
delete_all-nil [] = refl
delete_all-nil (n ∷ names) = delete_all-nil names

table_lem :
    {V : Type 0} (tables : Dict (Dict V)) (key : String) {m : Dict V}
    → get tables key ≡ some m
    → table tables key ≡ m
table_lem tables key e = rw (e, table) refl

table-eq-nil :
    {V : Type 0} (tables : Dict (Dict V)) (key : String)
    → get tables key ≡ none
    → table tables key ≡ []
table-eq-nil tables key e = rw (e, table) refl

delete_from_missing :
    {V : Type 0} (tables : Dict (Dict V)) (key : String) (names : List String)
    → get tables key ≡ none
    → delete_from tables key names ≡ tables
unfolding delete_from
delete_from_missing tables key names e = rw (e, delete_from) refl

delete_from_there :
    {V : Type 0} (tables : Dict (Dict V)) (key : String) (names : List String) {m : Dict V}
    → get tables key ≡ some m
    → delete_from tables key names ≡ put tables key (delete_all m names)
unfolding delete_from
delete_from_there tables key names e = rw (e, delete_from) refl

table-delete_from :
    {V : Type 0} (tables : Dict (Dict V)) (key : String) (names : List String)
    → table (delete_from tables key names) key ≡ delete_all (table tables key) names
table-delete_from tables key names = elim (Option-cases (get tables key)) [
  | inl e ↦
      rw (delete_from_missing tables key names e, table-eq-nil tables key e)
        (sym (delete_all-nil names))
  | inr (m, e) ↦
      rw (delete_from_there tables key names e, table_lem tables key e)
        (table_lem (put tables key (delete_all m names)) key
          (get-put_self tables key (delete_all m names)))
]

-- A name that is deferred is one that the session owns.
has-deferred_names :
    (id : String) (owners : Dict String) (docs : Dict Document) (ops : List WriteOperation)
    (name : String)
    → has name (deferred_names id owners docs ops) ≡ true
    → owner_of owners name ≡ id
unfolding deferred_names
has-deferred_names id owners docs [] name h = absurd (ground arith)
has-deferred_names id owners docs (delete_document n p ∷ ops) name h =
    elim (Bool-cases ((owner_of owners n == id) && passes (check_precondition p (get docs n)))) [
      | inr g ↦ has-deferred_names id owners docs ops name (rw (g, deferred_names) at h)
      | inl g ↦ elim (Bool-cases (n == name)) [
        | inl e ↦
            subst (λ k. owner_of owners k ≡ id) ((eq_iff n name).0 e)
              ((eq_iff (owner_of owners n) id).0 (ground arith))
        | inr e ↦ has-deferred_names id owners docs ops name (rw (g, deferred_names, e) at h)
      ]
    ]
has-deferred_names id owners docs (update_document n fs mask p ∷ ops) name h =
    has-deferred_names id owners docs ops name h
has-deferred_names id owners docs (merge_document n fs ∷ ops) name h =
    has-deferred_names id owners docs ops name h
has-deferred_names id owners docs (transform_document n ts ∷ ops) name h =
    has-deferred_names id owners docs ops name h
has-deferred_names id owners docs (no_operation ∷ ops) name h =
    has-deferred_names id owners docs ops name h

or_right : {b c : Bool} → b ≡ false → (b || c) ≡ true → c ≡ true
or_right e h = ground arith

has-all_deferred :
    (id : String) (owners : Dict String) (docs : Dict Document) (deferments : Dict Deferment)
    (name : String)
    → has name (all_deferred id owners docs deferments) ≡ true
    → owner_of owners name ≡ id
unfolding all_deferred
has-all_deferred id owners docs [] name h = absurd (ground arith)
has-all_deferred id owners docs ((k, d) ∷ deferments) name h =
    let here = deferred_names id owners docs d.write_operations in
    let e = any-append (λ n. n == name) here (all_deferred id owners docs deferments) in
    elim (Bool-cases (has name here)) [
      | inl g ↦ has-deferred_names id owners docs d.write_operations name g
      | inr g ↦ has-all_deferred id owners docs deferments name (or_right g (sym e ∙ h))
    ]

has-keep :
    (p : String → Bool) (names : List String) (name : String)
    → has name (keep p names) ≡ (has name names && p name)
has-keep p [] name = refl
has-keep p (n ∷ names) name = elim (Bool-cases (n == name)) [
  | inl e ↦
      subst (λ k. has k (keep p (n ∷ names)) ≡ (has k (n ∷ names) && p k)) ((eq_iff n name).0 e)
        (elim (Bool-cases (p n)) [
          | inl g ↦ rw (g, eq_refl n) refl
          | inr g ↦ rw (g, eq_refl n, has-keep p names n) (ground (arith, g))
        ])
  | inr e ↦ elim (Bool-cases (p n)) [
    | inl g ↦ rw (g, e) (has-keep p names name)
    | inr g ↦ rw (g, e) (has-keep p names name)
  ]
]

has-keys :
    {V : Type 0} (m : Dict V) (name : String) {v : V}
    → get m name ≡ some v
    → has name (keys m) ≡ true
unfolding get
has-keys [] name h = absurd (ground arith)
has-keys ((k, w) ∷ m) name h = elim (Bool-cases (k == name)) [
  | inl e ↦ rw e refl
  | inr e ↦ rw e (has-keys m name (rw (e, get) at h))
]

owner_missing :
    (owners : Dict String) (name : String) → get owners name ≡ none → owner_of owners name ≡ ""
owner_missing owners name e = rw (e, owner_of) refl

owner_there :
    (owners : Dict String) (name : String) {o : String}
    → get owners name ≡ some o
    → owner_of owners name ≡ o
owner_there owners name e = rw (e, owner_of) refl

and_false : (b : Bool) → (b && false) ≡ false
and_false true = refl
and_false false = refl

has-owned_names :
    (id : String) (owners : Dict String) (name : String)
    → id ≢ ""
    → has name (owned_names id owners) ≡ (owner_of owners name == id)
unfolding owned_names
has-owned_names id owners name h =
    has-keep (λ n. is_owner (get owners n) id) (keys owners) name
    ∙ elim (Option-cases (get owners name)) [
      | inl e ↦ elim (Bool-cases ("" == id)) [
        | inl f ↦ absurd (h (sym ((eq_iff "" id).0 f)))
        | inr f ↦ rw (owner_missing owners name e, f, e) (and_false (has name (keys owners)))
      ]
      | inr (o, e) ↦ rw (e, has-keys owners name e, owner_there owners name e) refl
    ]

deferred_or_owned :
    (id : String) (owners : Dict String) (docs : Dict Document) (deferments : Dict Deferment)
    (name : String)
    → id ≢ ""
    → (has name (all_deferred id owners docs deferments) || has name (owned_names id owners))
      ≡ (owner_of owners name == id)
deferred_or_owned id owners docs deferments name h =
    elim (Bool-cases (has name (all_deferred id owners docs deferments))) [
      | inl e ↦ rw e (
          sym (
            (eq_iff (owner_of owners name) id).1
              (has-all_deferred id owners docs deferments name e)))
      | inr e ↦ rw e (has-owned_names id owners name h)
    ]

-- The names that go are those of the session's own document and of the documents that it owns.
has-expired_names :
    (g : Gamesync) (id : String) (session : GamesyncSession) (name : String)
    → id ≢ ""
    → has name (expired_names g id session) ≡ (
        (user_document_name id == name)
        || (owner_of (table g.owners session.game_session) name == id))
unfolding expired_names
has-expired_names g id session name h =
    let owners = table g.owners session.game_session in
    let docs = table g.documents session.game_session in
    let deferred = all_deferred id owners docs (table g.deferments id) in
    has-distinct name (user_document_name id ∷ deferred ++ owned_names id owners)
    ∙ ap (λ b. (user_document_name id == name) || b)
        (any-append (λ n. n == name) deferred (owned_names id owners)
          ∙ deferred_or_owned id owners docs (table g.deferments id) name h)

-- What a session leaves behind: its game session without its document and without those that it
-- owned.
abbrev pub kept_document : Gamesync → String → GamesyncSession → String → Option Document
kept_document g id session name =
    if (user_document_name id == name)
      || (owner_of (table g.owners session.game_session) name == id)
    then none
    else get (table g.documents session.game_session) name

pub expire_session_lem :
    (g : Gamesync) (r : SessionRegistry) (id : String) (timer : ℕ) (session : GamesyncSession)
    → expiring g id timer ≡ some session
    → expire_session g r id timer ≡ (
      remove_session g id session,
      depart r session.game_session session.user_session,
      publish_names (expired_names g id session) (subscribers_of g session.game_session),
    )
unfolding expire_session
expire_session_lem g r id timer session e = rw (e, expire_session) refl

-- When a timer ends a session, the session is forgotten, its user is no member of the game session any
-- more, and of the documents of the game session just the session's own and those that it owns are
-- deleted, for a session whose id is not empty.
pub expire_session-kept_document :
    (g : Gamesync) (r : SessionRegistry) (id : String) (timer : ℕ) (session : GamesyncSession)
    (name uid : String)
    → id ≢ ""
    → expiring g id timer ≡ some session
    → let done = expire_session g r id timer in
      (get done.0.sessions id ≡ none)
      × (get (table done.0.documents session.game_session) name ≡ kept_document g id session name)
      × (member done.1 session.game_session session.user_session uid ≡ none)
unfolding remove_session
expire_session-kept_document g r id timer session name uid h e =
    rw (expire_session_lem g r id timer session e) (
      get-delete g.sessions id id ∙ rw (eq_refl id) refl,
      ap (λ m. get m name)
            (table-delete_from g.documents session.game_session (expired_names g id session))
          ∙ get-delete_all (expired_names g id session) (table g.documents session.game_session)
              name
          ∙ ap (λ b. if b then none else get (table g.documents session.game_session) name)
              (has-expired_names g id session name h),
      member-depart r session.game_session session.user_session uid,
    )
