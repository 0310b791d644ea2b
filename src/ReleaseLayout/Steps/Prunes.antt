-- ===== src/ReleaseLayout/Steps/Prunes.antt =====
-- What `prune` of lib/release-layout.js leaves alone.
use mathlib.Core.Path.{subst}
use mathlib.Core.List.{Memᴰ}
use open_vibe_host.Base.{
  string_eq, arith, String, true, false, not, nat_eq, ◌==◌, ◌||◌, Option, List, [], ◌∷◌, ◌++◌,
  contains, All, ◌≡◌, drop, sym, ap, ◌∙◌, refl,
}
use open_vibe_host.Base.Sets.{contains-append}
use open_vibe_host.Host.{Env, M, State, Call, Result, ok, collect, pure, ◌>>=◌}
use open_vibe_host.Host.Rules.{Steps, Steps-if, Steps-pure, Steps-bind, Steps-collect_all, bind-ok}
use open_vibe_host.Host.Rules.Inverse.{pure-ok}
use open_vibe_host.Host.Rules.Issued.{Issued, Issued-Allows}
use open_vibe_host.Inventory.{Service, Inventory}
use open_vibe_host.Git
use open_vibe_host.Git.{git_command}
use open_vibe_host.ReleaseLayout.State.{
  Layout, Current, Release, clone, current_release, list_releases, releases_in_use, used_by_unit,
  used_by_worker,
}
use open_vibe_host.ReleaseLayout.Steps.{is_id, privileged_command, prune_one, prune}

-- A release that may go: it is not current, not to be kept, and nothing runs from it.
pub record IsIdle (cur : Option String) (keep_ids in_use : List String) (id : String) : Type 0 where
  pub not_current : is_id cur id ≡ false
  pub not_kept : contains keep_ids id ≡ false
  pub not_used : contains in_use id ≡ false

none_of-IsIdle :
    (cur : Option String) (keep_ids in_use : List String) (id : String)
    → (is_id cur id || contains keep_ids id || contains in_use id) ≡ false
    → IsIdle cur keep_ids in_use id
none_of-IsIdle cur keep_ids in_use id h = record {
  not_current = ground arith;
  not_kept = ground arith;
  not_used = ground arith;
}

all_weaken :
    {A : Type 0} {P Q : A → Type 0} → ((x : A) → P x → Q x) → (xs : List A) → All P xs → All Q xs
all_weaken k [] h = tt
all_weaken k (x ∷ xs) (p, h) = (k x p, all_weaken k xs h)

members : {A : Type 0} (xs : List A) → All (λ x. Memᴰ x xs) xs
members [] = tt
members (x ∷ xs) = (Memᴰ.head refl, all_weaken (λ y m. Memᴰ.tail m) xs (members xs))

-- `in_use` has what `f` found for `x`.
abbrev pub Seen : {H : Type 0} → (String → M H (List String)) → List String → String → Type 0
Seen {H} f in_use x =
    (u v : State H) × (ids : List String) × (f x u ≡ (ok ids, v))
    × ((id : String) → contains ids id ≡ true → contains in_use id ≡ true)

collect-Seen :
    {H : Type 0} (f : String → M H (List String)) (in_use xs zs : List String) (s t : State H)
    → collect xs f s ≡ (ok zs, t)
    → ((id : String) → contains zs id ≡ true → contains in_use id ≡ true)
    → All (Seen f in_use) xs
unfolding collect
collect-Seen f in_use [] zs s t h k = tt
collect-Seen f in_use (x ∷ xs) zs s t h k =
    let (ys, u, found, rest) = bind-ok (f x) _ s t zs h in
    let (more, v, others, last) = bind-ok (collect xs f) _ u t zs rest in
    let (e, _) = pure-ok (ys ++ more) zs v t last in
    let all : (id : String) → (contains ys id || contains more id) ≡ contains zs id =
      λ id. sym (contains-append ys more id) ∙ ap (λ (l : List String). contains l id) e in
    (
      (s, u, ys, found, λ id here. k id (sym (all id) ∙ ground arith)),
      collect-Seen f in_use xs more u v others (λ id here. k id (sym (all id) ∙ ground arith)),
    )

module _ {H : Type 0} (env : Env H) (inv : Inventory) (backup : M H (List String)) (svc : Service)
    (rel : Layout) where
  -- The calls that remove a release for which `P` holds, and the one that tidies up behind.
  pub data Removes (P : Release → Type 0) : Call → Type 0 where
    worktree :
        (r : Release)
        → P r
        → Removes P (
            Call.run
              (git_command (clone env svc rel) ("worktree" ∷ "remove" ∷ "--force" ∷ r.dir ∷ [])))
    directory :
        (r : Release)
        → P r
        → Removes P (Call.run (privileged_command "rm" ("-rf" ∷ "--" ∷ r.dir ∷ [])))
    tidy : Removes P (Call.run (git_command (clone env svc rel) ("worktree" ∷ "prune" ∷ [])))

  prune_one-Removes :
      (P : Release → Type 0) (cur : Option String) (keep_ids in_use : List String) (r : Release)
      → (IsIdle cur keep_ids in_use r.id → P r)
      → Steps (Issued (Removes P)) (prune_one env inv backup svc rel cur keep_ids in_use r)
  unfolding prune_one Git.worktree_remove Git.run_any
  prune_one-Removes P cur keep_ids in_use r may =
      let look = Issued-Allows {C = Removes P} env in
      Steps-if (is_id cur r.id || contains keep_ids r.id || contains in_use r.id) _ _
        (λ _. Steps-pure look.pre [])
        (λ goes.
          let p = may (none_of-IsIdle cur keep_ids in_use r.id goes) in
          let w : Removes P _ = Removes.worktree r p in
          let d : Removes P _ = Removes.directory r p in
          Steps-bind look.pre _ _
            (Steps-bind look.pre _ _ (look.each _ w) (λ o. Steps-pure look.pre (o.code == 0)))
            (λ done.
              Steps-bind look.pre _ _
                (Steps-if (not done) _ _
                  (λ _. Steps-bind look.pre _ _ (look.each _ d) (λ _. Steps-pure look.pre tt))
                  (λ _. Steps-pure look.pre tt))
                (λ _. Steps-pure look.pre (r.id ∷ []))))

  -- The releases beyond those to keep, the newest first, that are idle.
  abbrev pub MayGo : List Release → Option String → List String → List String → Release → Type 0
  MayGo list cur keep_ids in_use r = Memᴰ r (drop rel.keep list) × IsIdle cur keep_ids in_use r.id

  releases_in_use-Seen :
      (in_use : List String) (s t : State H)
      → releases_in_use env svc rel s ≡ (ok in_use, t)
      → All (Seen (used_by_unit env svc rel) in_use) svc.units
        × All (Seen (used_by_worker env svc rel) in_use) svc.worker_units
  unfolding releases_in_use
  releases_in_use-Seen in_use s t h =
      let (own, u, units, rest) =
        bind-ok (collect svc.units (used_by_unit env svc rel)) _ s t in_use h in
      let (others, v, workers, last) =
        bind-ok (collect svc.worker_units (used_by_worker env svc rel)) _ u t in_use rest in
      let (e, _) = pure-ok (own ++ others) in_use v t last in
      let all : (id : String) → (contains own id || contains others id) ≡ contains in_use id =
        λ id. sym (contains-append own others id) ∙ ap (λ (l : List String). contains l id) e in
      (
        collect-Seen _ in_use svc.units own s u units (λ id here. sym (all id) ∙ ground arith),
        collect-Seen _ in_use svc.worker_units others u v workers
            (λ id here. sym (all id) ∙ ground arith),
      )

  -- What `prune` does behind its reads.
  abbrev removals : List Release → Option String → List String → List String → M H (List String)
  removals list cur keep_ids in_use =
      collect (drop rel.keep list) (prune_one env inv backup svc rel cur keep_ids in_use)
      >>= λ removed. Git.worktree_prune env (clone env svc rel) >>= λ _. pure removed

  removals-Removes :
      (list : List Release) (cur : Option String) (keep_ids in_use : List String)
      → Steps
          (Issued (Removes (MayGo list cur keep_ids in_use)))
          (removals list cur keep_ids in_use)
  unfolding Git.worktree_prune Git.run_any
  removals-Removes list cur keep_ids in_use =
      let P = MayGo list cur keep_ids in_use in
      let look = Issued-Allows {C = Removes P} env in
      let t : Removes P _ = Removes.tidy in
      Steps-bind look.pre _ _
        (Steps-collect_all look.pre (λ r. Memᴰ r (drop rel.keep list)) (drop rel.keep list) _
          (members (drop rel.keep list))
          (λ r there. prune_one-Removes P cur keep_ids in_use r (λ idle. (there, idle))))
        (λ removed.
          Steps-bind look.pre _ _
            (Steps-bind look.pre _ _ (look.each _ t) (λ _. Steps-pure look.pre tt))
            (λ _. Steps-pure look.pre removed))

  -- A `prune` that returned read the releases, the current one, and those in use, which are those that
  -- each unit and each worker was seen to run from. Each call that it made from then on removes a
  -- release beyond those to keep, the newest first, that is not the current one, none of those it was
  -- told to keep and none in use, or is `git worktree prune`.
  pub prune-Removes :
      (keep_ids removed : List String) (s t : State H)
      → prune env inv backup svc rel keep_ids s ≡ (ok removed, t)
      → (list : List Release) × (cur : Current) × (in_use : List String) × (u v w : State H)
        × (list_releases env svc rel s ≡ (ok list, u))
        × (current_release env svc rel u ≡ (ok cur, v))
        × (releases_in_use env svc rel v ≡ (ok in_use, w))
        × All (Seen (used_by_unit env svc rel) in_use) svc.units
        × All (Seen (used_by_worker env svc rel) in_use) svc.worker_units
        × Issued (Removes (MayGo list cur.id keep_ids in_use)) w t
  unfolding prune
  prune-Removes keep_ids removed s t h =
      let (list, u, listed, rest) = bind-ok (list_releases env svc rel) _ s t removed h in
      let (cur, v, read, rest') = bind-ok (current_release env svc rel) _ u t removed rest in
      let (in_use, w, seen, rest'') = bind-ok (releases_in_use env svc rel) _ v t removed rest' in
      let (units, workers) = releases_in_use-Seen in_use v w seen in
      (
        list,
        cur,
        in_use,
        u,
        v,
        w,
        listed,
        read,
        seen,
        units,
        workers,
        subst (Issued (Removes (MayGo list cur.id keep_ids in_use)) w)
            (ap (λ (r : Result (List String) × State H). r.1) rest'')
            ((removals-Removes list cur.id keep_ids in_use).at w),
      )
