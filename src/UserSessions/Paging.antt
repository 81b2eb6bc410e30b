-- ===== src/UserSessions/Paging.antt =====
-- The pages of ListUserSessions.
use super_mario_bros_wonder.Base.{
  String, ℕ, zero, suc, not, List, [], ◌∷◌, ◌≡◌, refl, inl, inr, keep, length, take, ltb, arith,
  if◌then◌else◌, str_le, Bool-cases,
}
use super_mario_bros_wonder.Proto.{UserSession}
use super_mario_bros_wonder.UserSessions.{fill_page}

-- The user sessions behind a page token.
abbrev pub behind : String → List UserSession → List UserSession
behind token us = keep (λ u. not (str_le u.name token)) us

abbrev pub last_name : String → List UserSession → String
last_name last [] = last
last_name last (u ∷ us) = last_name u.name us

-- A page holds the first user sessions behind its token, as many as there is room for, in order;
-- its next token is empty if no more are left, and else the name of the last one on the page.
pub fill_page-eq :
    (token : String) (room : ℕ) (last : String) (us : List UserSession)
    → fill_page token room last us ≡ (
      take room (behind token us),
      if ltb room (length (behind token us))
          then last_name last (take room (behind token us))
          else "",
    )
unfolding fill_page
fill_page-eq token zero last [] = refl
fill_page-eq token (suc room) last [] = ground arith
fill_page-eq token zero last (u ∷ us) = elim (Bool-cases (str_le u.name token)) [
  | inl e ↦ rw (e, fill_page) (fill_page-eq token zero last us)
  | inr e ↦ rw (e, fill_page) (ground arith)
]
fill_page-eq token (suc room) last (u ∷ us) = elim (Bool-cases (str_le u.name token)) [
  | inl e ↦ rw (e, fill_page) (fill_page-eq token (suc room) last us)
  | inr e ↦ rw (e, fill_page, fill_page-eq token room u.name us) (ground arith)
]
