-- ===== src/Host/Exec.antt =====
-- Asynchronous code over the executor, as functions from a state to a result and a state. An awaited
-- call is one step; what was done before a throw stays done.
use open_vibe_host.Base.{
  ℕ, String, Bool, true, Option, none, some, List, [], ◌∷◌, ℤ, if◌then◌else◌, ◌++◌,
}
use open_vibe_host.Host.Json.{Json}
use open_vibe_host.Host.Calls.{Call, Answer, Error, failed, Result, ok, err}
use open_vibe_host.Host.ReleaseRecord.{Entry}

-- The machine, and the functions of JavaScript itself that the program uses.
pub record Env (H : Type 0) : Type 0 where
  pub answer : (c : Call) → H → Result (Answer c) × H
  pub parse_json : String → Option Json
  -- `JSON.stringify` of a release-log record, and of `{ pid, at }`
  pub stringify : Entry → String
  pub lock_text : ℕ → String → String
  -- `JSON.stringify` of a list of parsed values
  pub stringify_values : List Json → String
  -- `Object.keys(v)`
  pub keys : Json → List String
  -- `a.localeCompare(b) <= 0`, and the order of `sort()` with no comparator
  pub locale_le : String → String → Bool
  pub unit_le : String → String → Bool
  -- `process.env.SUDO_USER` and `process.pid`
  pub sudo_user : Option String
  pub pid : ℕ
  -- `Number(v)` of a text, an array or an object; `none` is not finite
  pub number : Json → Option ℤ
  -- a member that is no own property of a parsed object: `length`, an index, the prototype's
  pub member : Json → String → Option Json
  -- `String(v)` of a value that is no text
  pub text_of : Json → String
  pub lower_case : String → String
  -- `new Date(ms).toISOString()`
  pub iso_string : ℕ → String
  -- the UTC digits of a time, `YYYYMMDD-HHMMSS`
  pub utc_digits : ℕ → String
  -- `new URL(path, base).href`, `none` where it throws
  pub resolve_url : String → String → Option String

pub record Event : Type 0 where
  pub call : Call
  pub answered : Result (Answer call)

pub record State (H : Type 0) : Type 0 where
  pub host : H
  -- the calls made so far, the latest first
  pub trace : List Event
  -- the objects that the operation shares with what it calls: `record` and `hostLock.current`
  pub entry : Entry
  pub host_lock : Bool
  -- a loop whose rounds are counted has run out of them; no code of the program sets this
  pub exhausted : Bool

abbrev pub M : Type 0 → Type 0 → Type 0
M H A = State H → Result A × State H

module _ {H A : Type 0} where
  unfoldable pub pure : A → M H A
  pure a s = (ok a, s)

  unfoldable pub throw : Error → M H A
  throw e s = (err e, s)

  unfoldable pub gets : (State H → A) → M H A
  gets f s = (ok (f s), s)

  -- the end of the counted rounds
  unfoldable pub exhaust : M H A
  exhaust s = (err failed, record s { exhausted = true })

module _ {H : Type 0} where
  unfoldable pub perform : Env H → (c : Call) → M H (Answer c)
  perform env c s =
      let (r, h) = env.answer c s.host in
      (r, record s { host = h; trace = record { call = c; answered = r } ∷ s.trace })

  -- an assignment to `hostLock.current`
  unfoldable pub set_host_lock : Bool → M H (Unit {0})
  set_host_lock b s = (ok tt, record s { host_lock = b })

  unfoldable pub set_entry : (Entry → Entry) → M H (Unit {0})
  set_entry f s = (ok tt, record s { entry = f s.entry })

module _ {H A B : Type 0} where
  abbrev pub continue : Result A × State H → (A → M H B) → Result B × State H
  continue (ok a, s) f = f a s
  continue (err e, s) f = (err e, s)

  infixl 5 ◌>>=◌ ◌>>◌
  unfoldable pub ◌>>=◌ : M H A → (A → M H B) → M H B
  unfolding pure throw gets set_host_lock set_entry perform exhaust
  ◌>>=◌ m f s = continue (m s) f

  abbrev pub ◌>>◌ : M H A → M H B → M H B
  m >> n = m >>= λ _. n

module _ {H A : Type 0} where
  abbrev pub recover : Result A × State H → (Error → M H A) → Result A × State H
  recover (ok a, s) f = (ok a, s)
  recover (err e, s) f = f e s

  -- `try { m } catch (err) { f(err) }`
  unfoldable pub catch : M H A → (Error → M H A) → M H A
  catch m f s = recover (m s) f

  abbrev pub settle : Result A → Result (Unit {0}) × State H → Result A × State H
  settle r (ok _, s) = (r, s)
  settle r (err e, s) = (err e, s)

  abbrev pub after : Result A × State H → M H (Unit {0}) → Result A × State H
  after (r, s) n = settle r (n s)

  -- `try { m } finally { n }`: what `n` throws takes the place of the result
  unfoldable pub finally : M H A → M H (Unit {0}) → M H A
  finally m n s = after (m s) n

module _ {H : Type 0} where
  -- `if (b) m`
  abbrev pub when : Bool → M H (Unit {0}) → M H (Unit {0})
  when b m = if b then m else pure tt

module _ {H A B : Type 0} where
  -- a branch on a value that may be null
  unfoldable pub maybe : Option A → M H B → (A → M H B) → M H B
  maybe none n f = n
  maybe (some a) n f = f a

module _ {H A : Type 0} where
  -- `for (const x of xs) f(x)`
  unfoldable pub for_each : List A → (A → M H (Unit {0})) → M H (Unit {0})
  for_each [] f = pure tt
  for_each (x ∷ xs) f = f x >> for_each xs f

module _ {H A B : Type 0} where
  -- a loop that pushes each result
  unfoldable pub collect : List A → (A → M H (List B)) → M H (List B)
  collect [] f = pure []
  collect (x ∷ xs) f = f x >>= λ ys. collect xs f >>= λ zs. pure (ys ++ zs)
