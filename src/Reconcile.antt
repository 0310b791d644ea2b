-- ===== src/Reconcile.antt =====
-- lib/reconcile.js: one pass of the deploy controller over the services. What it calls in
-- lib/index.js (plan, deploy, announce) is a parameter. Left out are the headers of a request, what
-- an entry only tells a reader (from, to, detail), and record, which writes the pass to two files.
pub mod Justified
pub mod Checks
use Prim.Native.String
use Prim.Native.Char.{Char, code}
use open_vibe_host.Base.{
  ℕ, zero, suc, String, Bool, true, false, not, ◌&&◌, ◌||◌, Option, none, some, List, [], ◌∷◌, ◌++◌,
  ◌==◌, string_eq, nat_eq, if◌then◌else◌, any, all, contains, null, keep as filter, leb,
}
use open_vibe_host.Base.Text.{starts_with, ends_with, strip_suffix, slice_from}
use open_vibe_host.Git
use open_vibe_host.Git.{checkout_of, ◌⧺◌}
use open_vibe_host.Host.{
  Env, M, Call, Error, failed, pure, throw, perform, catch, ◌>>=◌, ◌>>◌, collect,
}
use open_vibe_host.Host.Json.{Json, items, own, is_truthy}
use open_vibe_host.Inventory.{Service}

-- `s.includes(part)`
has_text : String → String → Bool
has_text part String.[] = part == ""
has_text part (String.◌∷◌ c s) = starts_with (String.◌∷◌ c s) part || has_text part s

-- `DOCS_OR_TESTS`, of a path without line breaks
unfoldable pub docs_or_tests : String → Bool
unfolding has_text
docs_or_tests f =
    any (λ p. starts_with f p)
      ("README.md" ∷ "STATUS.json" ∷ "CHANGELOG.md" ∷ "SECURITY.md" ∷ "test/" ∷ "tests/"
        ∷ ".github/" ∷ [])
    || (starts_with f "docs/" && has_text ".md" f)
    || any (λ e. ends_with f e)
        (".test.js" ∷ ".test.ts" ∷ ".test.cjs" ∷ ".test.cts" ∷ ".test.mjs" ∷ ".test.mts" ∷ [])

is_slug_char : ℕ → Bool
is_slug_char c =
    (leb b'a' c && leb c b'z')
    || (leb b'A' c && leb c b'Z')
    || (leb b'0' c && leb c b'9')
    || contains (b'_' ∷ b'.' ∷ b'-' ∷ []) c

all_slug : String → Bool
unfolding is_slug_char
all_slug String.[] = true
all_slug (String.◌∷◌ c s) = is_slug_char (code c) && all_slug s

-- The repository behind the owner: without a `.git` and a slash at the end.
repo_name : String → Option String
unfolding all_slug
repo_name r =
    let bare = if ends_with r "/" then strip_suffix "/" r else r in
    let name = strip_suffix ".git" bare in
    let repo = if ends_with bare ".git" && not (name == "") then name else bare in
    if not (repo == "") && all_slug repo then some repo else none

with_repo : String → Option String → Option String
with_repo owner none = none
with_repo owner (some repo) = some (String.◌++◌ owner (String.◌++◌ "/" repo))

-- owner/repo at the start of a text, the owner read so far in front
slug_at : String → String → Option String
unfolding repo_name with_repo is_slug_char
slug_at owner String.[] = none
slug_at owner (String.◌∷◌ c s) =
    let rest = slug_at (String.◌++◌ owner (String.◌∷◌ c "")) s in
    if is_slug_char (code c)
    then rest
    else if code c == b'/' && not (owner == "")
    then with_repo owner (repo_name s)
    else none

found_first : Option String → Option String → Option String
found_first (some slug) later = some slug
found_first none later = later

-- `githubSlug`: owner/repo of a GitHub remote (https or ssh), at the first place that has one.
unfoldable pub github_slug : String → Option String
unfolding slug_at found_first
github_slug String.[] = none
github_slug (String.◌∷◌ c s) =
    let here = String.◌∷◌ c s in
    let later = github_slug s in
    if starts_with here "github.com:" || starts_with here "github.com/"
    then found_first (slug_at "" (slice_from 11 here)) later
    else later

pub data Verdict : Type 0 where
  green pending red none_yet unknown : Verdict

-- `v.k` of a parsed value; `null` has no members.
pub member_of : String → Json → Option (Option Json)
member_of k Json.null = none
member_of k (Json.obj fs) = some (own k fs)
member_of k v = some none

is_text_in : List String → Option (Option Json) → Bool
is_text_in texts (some (some (Json.str s))) = contains texts s
is_text_in texts v = false

pub completed : Json → Bool
unfolding member_of is_text_in
completed c = is_text_in ("completed" ∷ []) (member_of "status" c)

pub passed : Json → Bool
unfolding member_of is_text_in
passed c = is_text_in ("success" ∷ "skipped" ∷ "neutral" ∷ []) (member_of "conclusion" c)

is_null : Json → Bool
is_null Json.null = true
is_null v = false

-- The verdict of a list of check runs; a run that is `null` is an error.
unfoldable pub verdict_of : List Json → Option Verdict
unfolding completed passed is_null
verdict_of runs =
    if null runs
    then some none_yet
    else if any (λ c. is_null c) runs
    then none
    else if any (λ c. not (completed c)) runs
    then some pending
    else if any (λ c. not (passed c)) runs
    then some red
    else some green

-- `body.check_runs || []`, where it is used as a list
pub runs_of : Option (Option Json) → Option (List Json)
runs_of none = none
runs_of (some (some (Json.arr vs))) = some (items vs)
runs_of (some (some (Json.str s))) = if s == "" then some [] else none
runs_of (some (some (Json.obj fs))) = if is_truthy (own "length" fs) then none else some []
runs_of (some v) = some []

-- What `plan` of lib/index.js returns, as far as the pass reads it.
pub record Planned : Type 0 where
  pub from : String
  pub to : String
  pub up_to_date : Bool
  pub changed : List String

pub record Deployed : Type 0 where
  pub exit_code : ℕ
  pub result : Option String
  pub to : Option String

pub data Action : Type 0 where
  skip error current docs_only waiting blocked would_deploy deployed failed_deploy : Action

-- One entry of `pass.services`.
pub record Reconciled : Type 0 where
  pub id : String
  pub action : Action
  pub ci : Option Verdict
  pub exit_code : Option ℕ
  pub announced : Option Bool

-- An entry that ends before the checks are read, and one that ends after.
entry : Service → Action → Reconciled
entry svc a = record { id = svc.id; action = a; ci = none; exit_code = none; announced = none }

checked : Service → Verdict → Action → Reconciled
unfolding entry
checked svc v a = record (entry svc a) { ci = some v }

is_green : Verdict → Bool
is_green green = true
is_green v = false

held_by : Verdict → Action
held_by red = blocked
held_by v = waiting

pub runtime_files : Planned → List String
runtime_files p = filter (λ f. not (docs_or_tests f)) p.changed

is_deployed : Option String → Bool
is_deployed none = false
is_deployed (some r) = r == "deployed"

module _ {H : Type 0} (env : Env H) where
  read_verdict : Option Verdict → M H Verdict
  read_verdict none = throw failed
  read_verdict (some v) = pure v

  read_runs : Option (List Json) → M H Verdict
  unfolding read_verdict
  read_runs none = throw failed
  read_runs (some runs) = read_verdict (verdict_of runs)

  read_body : Option Json → M H Verdict
  unfolding read_runs runs_of member_of
  read_body none = pure unknown
  read_body (some body) = read_runs (runs_of (member_of "check_runs" body))

  -- The verdict of the checks of one commit.
  unfoldable pub ci_status : String → String → M H Verdict
  unfolding read_body
  ci_status slug sha = do
    r ← perform env (
        Call.http
          ("https://api.github.com/repos/" ⧺ slug ⧺ "/commits/" ⧺ sha ⧺ "/check-runs?per_page=100"))
    if r.status == 200 then read_body (env.parse_json r.body) else pure unknown

  -- `remoteUrl().catch(() => '')`
  unfoldable pub remote_of : Service → M H String
  remote_of svc = catch (Git.remote_url env (checkout_of svc)) (λ _. pure "")

  -- What may throw, which is noted as an error.
  unfoldable pub attempted : {A : Type 0} → M H A → M H (Option A)
  attempted m = catch (m >>= λ a. pure (some a)) (λ _. pure none)

  -- plan, deploy and announce of lib/index.js, for the service and what they are called with:
  -- plan with a fetch, deploy with waitIdle, and announce with the new head.
  module _ (only : Option (List String)) (dry_run : Bool) (plan : String → M H Planned)
      (announce : String → Option String → M H Bool) where
    announced_as : String → Option String → M H (Option Bool)
    announced_as id head = catch (announce id head >>= λ b. pure (some b)) (λ _. pure (some false))

    -- The result of a deploy; `none` is a deploy that threw.
    settle_deploy : Service → Option Deployed → M H Reconciled
    unfolding announced_as is_deployed checked
    settle_deploy svc none = pure (checked svc green error)
    settle_deploy svc (some r) =
        let noted = record (checked svc green deployed) { exit_code = some r.exit_code } in
        if not (r.exit_code == 0)
        then pure (record noted { action = failed_deploy })
        else if is_deployed r.result
        then (announced_as svc.id r.to >>= λ b. pure (record noted { announced = b }))
        else pure noted

    after_ci : (String → M H Deployed) → Service → Verdict → M H Reconciled
    unfolding settle_deploy is_green held_by checked
    after_ci deploy svc v =
        if not (is_green v)
        then pure (checked svc v (held_by v))
        else if dry_run
        then pure (checked svc v would_deploy)
        else (attempted (deploy svc.id) >>= settle_deploy svc)

    with_slug : (String → M H Deployed) → Service → Planned → Option String → M H Reconciled
    unfolding after_ci entry
    with_slug deploy svc p none = pure (entry svc error)
    with_slug deploy svc p (some slug) = ci_status slug p.to >>= after_ci deploy svc

    after_plan : (String → M H Deployed) → Service → Option Planned → M H Reconciled
    unfolding with_slug entry runtime_files
    after_plan deploy svc none = pure (entry svc error)
    after_plan deploy svc (some p) =
        if p.up_to_date
        then pure (entry svc current)
        else if null (runtime_files p)
        then pure (entry svc docs_only)
        else if not (svc.deploy_policy == "auto")
        then pure (entry svc waiting)
        else (remote_of svc >>= λ url. with_slug deploy svc p (github_slug url))

    -- One service of the pass.
    unfoldable pub reconcile_one : (String → M H Deployed) → Service → M H Reconciled
    unfolding after_plan entry
    reconcile_one deploy svc =
        if not svc.managed || svc.repo == ""
        then pure (entry svc skip)
        else (attempted (plan svc.id) >>= after_plan deploy svc)

    is_wanted : Option (List String) → Service → Bool
    is_wanted none svc = true
    is_wanted (some ids) svc = contains ids svc.id

    -- The pass, one service after another, in the order of the inventory.
    unfoldable pub reconcile : (String → M H Deployed) → List Service → M H (List Reconciled)
    unfolding is_wanted
    reconcile deploy services =
        collect (filter (λ svc. is_wanted only svc) services)
          (λ svc. reconcile_one deploy svc >>= λ e. pure (e ∷ []))
