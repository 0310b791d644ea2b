-- ===== src/ReleaseLayout/State.antt =====
-- Which releases there are, which one is current, and which are in use (lib/release-layout.js).
use open_vibe_host.Base.{
  ◌+◌, ℕ, String, Bool, true, false, not, ◌&&◌, ◌||◌, Option, none, some, List, [], ◌∷◌, ◌++◌, ◌==◌,
  nat_eq, string_eq, if◌then◌else◌, contains, leb, truthy, reverse, ℤ, pos, int_eq,
}
use Prim.Native.String
use Prim.Native.Char.{code}
use open_vibe_host.Base.Text.{ends_with, starts_with, split_on, slice_from, slice_to, strip_suffix}
use open_vibe_host.Base.Paths.{join, normalize, basename, dirname, is_absolute}
use open_vibe_host.Base.Sorting.{sort_by}
use open_vibe_host.Host.{
  Env, M, Call, DirEntry, Stat, op_error, usage, pure, throw, perform, catch, collect, maybe, ◌>>=◌,
}
use open_vibe_host.Host.Json.{Json}
use open_vibe_host.Inventory.{Service, Inventory}
use open_vibe_host.Probes.{value_at}
use open_vibe_host.Readiness.{names_release}
use open_vibe_host.Systemd
use open_vibe_host.Systemd.{Instance}
use open_vibe_host.Git
use open_vibe_host.Git.{Checkout, ◌⧺◌}
use open_vibe_host.Releases

-- The `release` block of an inventory entry, and the port of the entry.
pub record Layout : Type 0 where
  pub git : String
  pub current : String
  pub releases_dir : String
  -- `id === 'time-sha8'`; else it is 'sha12'
  pub time_ids : Bool
  pub reuse_modules : Bool
  pub keep : ℕ
  pub links : List (String × String)
  pub chown : Option String
  pub settle_seconds : ℕ
  pub socket_port : Option ℕ
  pub port : Option ℕ

-- What `current` points at; without `dir` it is no release.
pub record Current : Type 0 where
  pub dir : Option String
  pub id : Option String
  pub sha : Option String

pub record Release : Type 0 where
  pub id : String
  pub dir : String
  pub mtime : ℕ

pub record Target : Type 0 where
  pub id : String
  pub dir : String
  pub sha : Option String

-- `newReleaseId(now, sha, format)`, on the digits of the time
unfoldable pub new_release_id : Layout → String → String → String
unfolding slice_to
new_release_id rel digits sha =
    if rel.time_ids then digits ⧺ "-" ⧺ slice_to 8 sha else slice_to 12 sha

is_hex : ℕ → Bool
is_hex c = (leb b'0' c && leb c b'9') || (leb b'a' c && leb c b'f')

all_hex : String → Bool
unfolding is_hex
all_hex String.[] = true
all_hex (String.◌∷◌ c s) = is_hex (code c) && all_hex s

-- `/^[0-9a-f]{40}$/.test(h)`
unfoldable pub is_sha : String → Bool
unfolding all_hex
is_sha h = all_hex h && String.count h == 40

-- The longest end of at most forty hexadecimal digits.
hex_end : String → String
unfolding all_hex
hex_end String.[] = ""
hex_end (String.◌∷◌ c s) =
    let rest = hex_end s in
    if all_hex (String.◌∷◌ c s) && leb (String.count s) 39 then String.◌∷◌ c s else rest

-- `/([0-9a-f]{8,40})$/.exec(name)`
unfoldable pub sha_in_name : String → Option String
unfolding hex_end
sha_in_name name = if leb 8 (String.count (hex_end name)) then some (hex_end name) else none

is_id_char : ℕ → Bool
unfolding contains
is_id_char c =
    (leb b'A' c && leb c b'Z')
    || (leb b'a' c && leb c b'z')
    || (leb b'0' c && leb c b'9')
    || contains (b'.' ∷ b'_' ∷ b'-' ∷ []) c

all_id : String → Bool
unfolding is_id_char
all_id String.[] = true
all_id (String.◌∷◌ c s) = is_id_char (code c) && all_id s

is_alnum_start : String → Bool
unfolding contains is_id_char
is_alnum_start String.[] = false
is_alnum_start (String.◌∷◌ c s) =
    is_id_char (code c) && not (contains (b'.' ∷ b'_' ∷ b'-' ∷ []) (code c))

-- `/^[A-Za-z0-9][A-Za-z0-9._-]{0,99}$/.test(to)`
unfoldable pub is_release_name : String → Bool
unfolding all_id is_alnum_start
is_release_name to = is_alnum_start to && all_id to && leb (String.count to) 100

-- `path.relative(base, p).split('/')[0]` for a path strictly inside the base, both absolute
unfoldable pub first_below : String → String → Option String
unfolding split_on slice_from starts_with normalize
first_below base p =
    if starts_with (normalize p) (base ⧺ "/")
    then elim (split_on b'/' (slice_from (String.count base + 1) (normalize p))) [
      | [] ↦ none
      | x ∷ _ ↦ if x == "" || starts_with x ".." then none else some x
    ]
    else none

-- `/@([^@]+)\.service$/.exec(unit)`
unfoldable pub instance_name : String → Option String
unfolding split_on strip_suffix ends_with
instance_name unit =
    if not (ends_with unit ".service")
    then none
    else elim (reverse (split_on b'@' (strip_suffix ".service" unit))) [
      | [] ↦ none
      | last ∷ [] ↦ none
      | last ∷ _ ↦ if last == "" then none else some last
    ]

-- Not started: `['inactive', 'dead'].includes(i.active) && i.sub === 'dead'`
abbrev is_stopped : Instance → Bool
is_stopped i = (i.active == "inactive" || i.active == "dead") && i.sub == "dead"

first_where : {A : Type 0} → (A → Bool) → List A → Option A
first_where p [] = none
first_where p (x ∷ xs) = if p x then some x else first_where p xs

same_id : Option String → String → Bool
same_id none s = false
same_id (some t) s = t == s

module _ {H : Type 0} (env : Env H) (svc : Service) (rel : Layout) where
  abbrev pub clone : Checkout
  clone = record {
    dir = rel.git;
    safe_directory = false;
    owner = svc.owner;
    remote = svc.remote;
    branch = svc.branch;
  }

  abbrev pub inside : String → Checkout
  inside dir = record {
    dir = dir;
    safe_directory = true;
    owner = svc.owner;
    remote = svc.remote;
    branch = svc.branch;
  }

  -- `none` where the head cannot be read or is no sha
  head_sha : String → M H (Option String)
  head_sha dir =
      catch (do h ← Git.head env (inside dir); pure (if is_sha h then some h else none))
        (λ _. pure none)

  sha_of_name : Option String → M H (Option String)
  sha_of_name none = pure none
  sha_of_name (some name) =
      catch (do sha ← Git.rev_parse env clone name; pure (some sha)) (λ _. pure none)

  -- The sha a release directory holds: its worktree's head, else the one that its id names.
  unfoldable pub release_sha : String → M H (Option String)
  unfolding head_sha sha_of_name basename
  release_sha dir = do
    h ← head_sha dir
    maybe h (sha_of_name (sha_in_name (basename dir))) (λ sha. pure (some sha))

  -- `path.resolve(path.dirname(link), target)`
  resolved : String → String
  resolved target =
      if is_absolute target then normalize target else join (dirname rel.current ∷ target ∷ [])

  is_directory : Option Stat → Bool
  is_directory none = false
  is_directory (some st) = st.is_dir

  no_release : Current
  no_release = record { dir = none; id = none; sha = none }

  current_at : String → M H Current
  unfolding resolved is_directory no_release dirname basename starts_with
  current_at dir = do
    st ← perform env (Call.stat dir)
    if not (starts_with dir (rel.releases_dir ⧺ "/") && dirname dir == rel.releases_dir)
          || not (is_directory st)
        then pure no_release
        else (do
          sha ← release_sha dir
          pure (record { dir = some dir; id = some (basename dir); sha = sha }))

  unfoldable pub current_release : M H Current
  unfolding current_at
  current_release = do
    target ← perform env (Call.readlink rel.current)
    if not (truthy target)
        then pure no_release
        else maybe target (pure no_release) (λ t. current_at (resolved t))

  mtime_of : Option Stat → ℕ
  mtime_of none = 0
  mtime_of (some st) = st.mtime

  release_in : DirEntry → M H (List Release)
  unfolding mtime_of starts_with
  release_in e = if not e.is_dir || starts_with e.name "." then pure [] else do
    st ← perform env (Call.stat (join (rel.releases_dir ∷ e.name ∷ [])))
    pure (
        record { id = e.name; dir = join (rel.releases_dir ∷ e.name ∷ []); mtime = mtime_of st }
        ∷ [])

  -- The newest first.
  newer : Release → Release → Bool
  newer a b =
      if rel.time_ids || a.mtime == b.mtime then env.locale_le b.id a.id else leb b.mtime a.mtime

  unfoldable pub list_releases : M H (List Release)
  unfolding release_in newer
  list_releases = do
    entries ← perform env (Call.readdir rel.releases_dir)
    out ← collect (elim entries [ none ↦ [] | some es ↦ es ]) release_in
    pure (sort_by newer out)

  -- The release that the process of a unit runs from.
  used_by_pid : Option ℤ → M H (List String)
  used_by_pid none = pure []
  used_by_pid (some pid) = if pid == pos 0 then pure [] else do
    cwd ← perform env (Call.readlink ("/proc/" ⧺ env.text_of (Json.num pid) ⧺ "/cwd"))
    pure (elim cwd [
      | none ↦ []
      | some p ↦ elim (first_below rel.releases_dir p) [ none ↦ [] | some id ↦ id ∷ [] ]
    ])

  pub used_by_unit : String → M H (List String)
  unfolding used_by_pid
  used_by_unit u = do
    pid ← catch (do st ← Systemd.show env u; pure st.main_pid) (λ _. pure none)
    used_by_pid pid

  pub used_by_worker : String → M H (List String)
  unfolding ends_with
  used_by_worker w = if not (ends_with w "@.service") then pure [] else do
    list ← catch (Systemd.instances env w) (λ _. pure [])
    collect list (λ i. pure (
        if is_stopped i then [] else elim (instance_name i.unit) [ none ↦ [] | some id ↦ id ∷ [] ]))

  unfoldable pub releases_in_use : M H (List String)
  unfolding used_by_unit used_by_worker
  releases_in_use = do
    own ← collect svc.units used_by_unit
    workers ← collect svc.worker_units used_by_worker
    pure (own ++ workers)

  with_sha : Release → M H Target
  with_sha r = do sha ← release_sha r.dir; pure (record { id = r.id; dir = r.dir; sha = sha })

  -- The first release whose sha begins so.
  find_sha : String → List Release → M H (Option Target)
  unfolding starts_with
  find_sha to [] = pure none
  find_sha to (r ∷ rs) = do
    sha ← release_sha r.dir
    if elim sha [ none ↦ false | some h ↦ not (h == "") && starts_with h to ]
        then pure (some (record { id = r.id; dir = r.dir; sha = sha }))
        else find_sha to rs

  named_target : String → List Release → M H Target
  unfolding with_sha find_sha first_where
  named_target to list =
      if not (is_release_name to)
      then throw (op_error usage none)
      else maybe (first_where (λ r. r.id == to) list)
          (do
            hit ← if names_release to then find_sha to list else pure none
            maybe hit (throw (op_error usage none)) pure)
          with_sha

  text_field : Json → String → Option String
  text_field v k = elim (value_at env v (some k)) [ some (Json.str s) ↦ some s | _ ↦ none ]

  -- The release that the current one replaced, by a line of the log.
  replaced : Option String → Json → Option String
  unfolding text_field same_id
  replaced cur r =
      if same_id (text_field r "result") "deployed"
        && elim cur [ none ↦ false | some id ↦ same_id (text_field r "toRelease") id ]
        && truthy (text_field r "fromRelease")
        && not (elim cur [ none ↦ false | some id ↦ same_id (text_field r "fromRelease") id ])
      then text_field r "fromRelease"
      else none

  logged_hit : Option String → List Release → List Json → Option Release
  unfolding replaced first_where
  logged_hit cur list [] = none
  logged_hit cur list (r ∷ rs) =
      let rest = logged_hit cur list rs in
      elim (replaced cur r) [
        | none ↦ rest
        | some id ↦ elim (first_where (λ x. x.id == id) list) [ none ↦ rest | some hit ↦ some hit ]
      ]

  previous_target : Inventory → Current → List Release → M H Target
  unfolding logged_hit first_where with_sha same_id
  previous_target inv cur list = do
    records ← Releases.list env inv svc.id
    maybe (logged_hit cur.id list (reverse records))
        (maybe (first_where (λ r. not (same_id cur.id r.id)) list) (throw (op_error usage none))
          with_sha)
        with_sha

  -- The release a rollback returns to.
  unfoldable pub rollback_target : Inventory → Current → Option String → M H Target
  unfolding named_target previous_target
  rollback_target inv cur to = do
    list ← list_releases
    maybe to (previous_target inv cur list) (λ t. named_target t list)
