-- ===== src/Names/Segments.antt =====
-- The last segment of a resource name.
use text.Mathlib.TextLemmas.{append_assoc}
use super_mario_bros_wonder.Base.{
  String, ◌≡◌, refl, none, inl, inr, ◌⊕◌, after_last_slash, after_last_slash-append,
  after_last_slash-eq-none, Option-cases,
}
use super_mario_bros_wonder.Names.{npln_tenant, user_path, last_resource_segment, user_id_from_path}

-- A segment: a text with no slash.
abbrev pub IsSegment : String → Type 0
IsSegment s = after_last_slash s ≡ none

-- What a slash and a segment are put behind has that segment as its last one.
pub last_resource_segment-append :
    (s t : String) → IsSegment t → last_resource_segment (s ⊕ ("/" ⊕ t)) ≡ t
unfolding last_resource_segment
last_resource_segment-append s t h = rw (after_last_slash-append s t h)

pub last_resource_segment-IsSegment : (s : String) → IsSegment (last_resource_segment s)
unfolding last_resource_segment
last_resource_segment-IsSegment s = elim (Option-cases (after_last_slash s)) [
  | inl e ↦ rw e e
  | inr (t, e) ↦ rw e (after_last_slash-eq-none s e)
]

pub last_resource_segment_of_IsSegment : (s : String) → IsSegment s → last_resource_segment s ≡ s
unfolding last_resource_segment
last_resource_segment_of_IsSegment s h = rw h

pub last_resource_segment_idem :
    (s : String) → last_resource_segment (last_resource_segment s) ≡ last_resource_segment s
last_resource_segment_idem s =
    last_resource_segment_of_IsSegment _ (last_resource_segment-IsSegment s)

pub user_id_from_path-eq : (s : String) → user_id_from_path s ≡ last_resource_segment s
unfolding user_id_from_path last_resource_segment
user_id_from_path-eq s = refl

-- The uid is read back from the path that is made of it, if it holds no slash.
pub user_id_from_path-user_path :
    (uid : String) → IsSegment uid → user_id_from_path (user_path uid) ≡ uid
user_id_from_path-user_path uid h =
    rw (user_id_from_path-eq (user_path uid), ← append_assoc npln_tenant "/users" ("/" ⊕ uid))
      (last_resource_segment-append (npln_tenant ⊕ "/users") uid h)
