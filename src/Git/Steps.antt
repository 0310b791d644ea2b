-- ===== src/Git/Steps.antt =====
-- The commands of lib/git.js are no systemctl, whatever they are asked.
use open_vibe_host.Base.{String, List, [], ◌∷◌, nat_eq, string_eq, refl}
use open_vibe_host.Host.{Env, Call, Output, State}
use open_vibe_host.Host.Rules.{Allows, Steps, Steps-pure, Steps-bind, steps_rules}
use open_vibe_host.Systemd.Classes.{IsPlain}
use open_vibe_host.Git
use open_vibe_host.Git.{Checkout, git_command, run_any, checked, checkout_chunks, chunks}

module _ {H : Type 0} (env : Env H) {R : State H → State H → Type 0}
    (plain : Allows env IsPlain R) where
  run_any-Steps : (g : Checkout) (args : List String) → Steps R (run_any env g args)
  unfolding run_any git_command
  run_any-Steps g args = plain.each (Call.run (git_command g args)) refl

  checked-Steps : (r : Output) → Steps R (checked env r)
  unfolding checked
  checked-Steps r = search (steps_rules, plain.pre) depth 4

  run-Steps : (g : Checkout) (args : List String) → Steps R (Git.run env g args)
  unfolding Git.run
  run-Steps g args = Steps-bind plain.pre _ _ (run_any-Steps g args) checked-Steps

  ruleset git_rules = (steps_rules, run_any-Steps, run-Steps)

  pub head-Steps : (g : Checkout) → Steps R (Git.head env g)
  unfolding Git.head
  head-Steps g = search (git_rules, plain.pre) depth 4

  pub branch-Steps : (g : Checkout) → Steps R (Git.branch env g)
  unfolding Git.branch
  branch-Steps g = search (git_rules, plain.pre) depth 4

  pub rev_parse-Steps : (g : Checkout) (x : String) → Steps R (Git.rev_parse env g x)
  unfolding Git.rev_parse
  rev_parse-Steps g x = search (git_rules, plain.pre) depth 4

  pub has_commit-Steps : (g : Checkout) (x : String) → Steps R (Git.has_commit env g x)
  unfolding Git.has_commit
  has_commit-Steps g x = search (git_rules, plain.pre) depth 4

  pub dirty-Steps : (g : Checkout) → Steps R (Git.dirty env g)
  unfolding Git.dirty
  dirty-Steps g = search (git_rules, plain.pre) depth 4

  pub skip_worktree-Steps : (g : Checkout) → Steps R (Git.skip_worktree env g)
  unfolding Git.skip_worktree
  skip_worktree-Steps g = search (git_rules, plain.pre) depth 4

  pub no_skip_worktree-Steps : (g : Checkout) (x : String) → Steps R (Git.no_skip_worktree env g x)
  unfolding Git.no_skip_worktree
  no_skip_worktree-Steps g x = search (git_rules, plain.pre) depth 4

  pub rm_cached-Steps : (g : Checkout) (x : String) → Steps R (Git.rm_cached env g x)
  unfolding Git.rm_cached
  rm_cached-Steps g x = search (git_rules, plain.pre) depth 4

  pub fetch-Steps : (g : Checkout) → Steps R (Git.fetch env g)
  unfolding Git.fetch
  fetch-Steps g = search (git_rules, plain.pre) depth 4

  pub changed_files-Steps : (g : Checkout) (x y : String) → Steps R (Git.changed_files env g x y)
  unfolding Git.changed_files
  changed_files-Steps g x y = search (git_rules, plain.pre) depth 4

  pub added_files-Steps : (g : Checkout) (x y : String) → Steps R (Git.added_files env g x y)
  unfolding Git.added_files
  added_files-Steps g x y = search (git_rules, plain.pre) depth 4

  pub log-Steps : (g : Checkout) (x y : String) → Steps R (Git.log env g x y)
  unfolding Git.log
  log-Steps g x y = search (git_rules, plain.pre) depth 4

  pub show-Steps : (g : Checkout) (x y : String) → Steps R (Git.show env g x y)
  unfolding Git.show
  show-Steps g x y = search (git_rules, plain.pre) depth 4

  pub ff_merge-Steps : (g : Checkout) (x : String) → Steps R (Git.ff_merge env g x)
  unfolding Git.ff_merge
  ff_merge-Steps g x = search (git_rules, plain.pre) depth 4

  pub reset_hard-Steps : (g : Checkout) (x : String) → Steps R (Git.reset_hard env g x)
  unfolding Git.reset_hard
  reset_hard-Steps g x = search (git_rules, plain.pre) depth 4

  pub checkout_file-Steps : (g : Checkout) (x : String) → Steps R (Git.checkout_file env g x)
  unfolding Git.checkout_file
  checkout_file-Steps g x = search (git_rules, plain.pre) depth 4

  pub worktree_add-Steps : (g : Checkout) (x y : String) → Steps R (Git.worktree_add env g x y)
  unfolding Git.worktree_add
  worktree_add-Steps g x y = search (git_rules, plain.pre) depth 4

  pub worktree_remove-Steps : (g : Checkout) (x : String) → Steps R (Git.worktree_remove env g x)
  unfolding Git.worktree_remove
  worktree_remove-Steps g x = search (git_rules, plain.pre) depth 4

  pub worktree_prune-Steps : (g : Checkout) → Steps R (Git.worktree_prune env g)
  unfolding Git.worktree_prune
  worktree_prune-Steps g = search (git_rules, plain.pre) depth 4

  checkout_chunks-Steps :
      (g : Checkout) (fs : List (List String)) → Steps R (checkout_chunks env g fs)
  unfolding checkout_chunks
  checkout_chunks-Steps g [] = Steps-pure plain.pre tt
  checkout_chunks-Steps g (f ∷ fs) =
      Steps-bind plain.pre _ _ (run-Steps g _) (λ _. checkout_chunks-Steps g fs)

  pub checkout_paths-Steps :
      (g : Checkout) (files : List String) → Steps R (Git.checkout_paths env g files)
  unfolding Git.checkout_paths
  checkout_paths-Steps g files = checkout_chunks-Steps g _
