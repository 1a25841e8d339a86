-- ===== src/Repositories/Selection.antt =====
-- What selecting a repository does to the contexts.
use phodex.Base.{
  ℕ, suc, ◌≡◌, refl, ◌≢◌, String, Option, some, List, [], ◌∷◌, arith, ==_self, update_rows,
  count_rows, count_rows-append,
}
use phodex.Json.{Json}
use phodex.Models.{SyncedRepository, ProjectContext}
use phodex.World.{World, ok}
use phodex.Repositories.{
  get_by_id_no_user, is_current_of, not_current, context_of, make_current, select_repository,
}

cleared :
    (user_id : ℕ) (cs : List ProjectContext)
    → count_rows (is_current_of user_id) (update_rows (is_current_of user_id) not_current cs) ≡ 0
cleared user_id [] = refl
cleared user_id (c ∷ cs) = ground (arith, cleared user_id cs)

others :
    (user_id other : ℕ) (cs : List ProjectContext)
    → other ≢ user_id
    → count_rows (is_current_of other) (update_rows (is_current_of user_id) not_current cs)
      ≡ count_rows (is_current_of other) cs
others user_id other [] h = refl
others user_id other (c ∷ cs) h = ground (arith, others user_id other cs h)

module _ (python_str : Json → String) (user_id repo_id : ℕ) (name : Option String) (w : World)
    (repo : SyncedRepository) (found : get_by_id_no_user repo_id w.db ≡ some repo) where
  made : ProjectContext
  made =
      context_of python_str user_id name repo (w.env.uuid w.calls) (w.env.uuid_str repo.device_id)

  selected :
      select_repository python_str user_id repo_id name w
      ≡ make_current user_id made (record w { calls = suc w.calls })
  unfolding select_repository made
  selected = ground arith

  -- Selecting a repository that exists leaves the user with exactly one current context, made of that
  -- repository, and every other user with as many as before. The repository need not be the user's
  -- own: its owner is not looked at.
  pub select_repository_lem :
      let (r, w') = select_repository python_str user_id repo_id name w in
      ((c : ProjectContext) × (r ≡ ok c)
        × (c.user_id ≡ user_id)
        × (c.synced_repository_id ≡ some repo.id))
      × (count_rows (is_current_of user_id) w'.db.contexts ≡ 1)
      × ((other : ℕ)
          → other ≢ user_id
          → count_rows (is_current_of other) w'.db.contexts
            ≡ count_rows (is_current_of other) w.db.contexts)
  unfolding made make_current context_of
  select_repository_lem = (
    (made, rw selected refl, refl, refl),
    rw selected (
        rw (count_rows-append (is_current_of user_id))
          (ground (arith, cleared user_id w.db.contexts, ==_self user_id))),
    λ other h. rw selected (
        rw (count_rows-append (is_current_of other))
          (ground (arith, others user_id other w.db.contexts h))),
  )
