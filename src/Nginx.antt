-- ===== src/Nginx.antt =====
-- lib/nginx.js `test` and `install`: vhost files are installed as one change, and put back where
-- `nginx -t` fails.
pub mod Steps
use open_vibe_host.Base.{
  String, Bool, true, false, not, ◌&&◌, ◌||◌, Option, none, some, List, [], ◌∷◌, ◌++◌, ◌==◌, nat_eq,
  string_eq, if◌then◌else◌, leb, any, null, is_some, contains,
}
use Prim.Native.Char.{code}
use open_vibe_host.Base.{ℕ}
use open_vibe_host.Base.Paths.{join}
use open_vibe_host.Host.{
  Env, M, Call, Command, Stat, failed, pure, throw, perform, maybe, ◌>>=◌, ◌>>◌,
}
use open_vibe_host.Inventory.{Inventory}
use open_vibe_host.Systemd.{reload_nginx}

pub record Vhost : Type 0 where
  pub name : String
  pub text : Option String

-- One entry of `undo`.
pub data Undo : Type 0 where
  remove : String → Undo
  write : String → String → Undo
  link : String → String → Undo

pub record Installed : Type 0 where
  pub changed : List String
  pub removed : List String
  pub reloaded : Bool

-- `undo`, the latest first, and the two lists.
pub record Progress : Type 0 where
  pub undo : List Undo
  pub changed : List String
  pub removed : List String

is_name_char : ℕ → Bool
unfolding contains
is_name_char c =
    (leb b'A' c && leb c b'Z')
    || (leb b'a' c && leb c b'z')
    || (leb b'0' c && leb c b'9')
    || contains (b'.' ∷ b'_' ∷ b'-' ∷ []) c

all_name_chars : String → Bool
unfolding is_name_char
all_name_chars String.[] = true
all_name_chars (String.◌∷◌ c s) = is_name_char (code c) && all_name_chars s

-- `/^[A-Za-z0-9._-]+$/.test(name)`
unfoldable pub is_file_name : String → Bool
unfolding all_name_chars
is_file_name name = not (name == "") && all_name_chars name

same_text : Option String → Option String → Bool
same_text none none = true
same_text (some a) (some b) = a == b
same_text _ _ = false

abbrev text_or_empty : Option String → String
text_or_empty none = ""
text_or_empty (some s) = s

unfoldable pub test_command : Inventory → Command
test_command inv = record {
  cmd = inv.nginx_bin;
  args = "-t" ∷ [];
  run_as = none;
  privileged = true;
  cwd = none;
}

module _ {H : Type 0} (env : Env H) where
  unfoldable pub test : Inventory → M H Bool
  unfolding test_command
  test inv = do r ← perform env (Call.run (test_command inv)); pure (r.code == 0)

  unfoldable pub undo_one : Undo → M H (Unit {0})
  undo_one (remove p) = perform env (Call.remove_file p)
  undo_one (write p text) = perform env (Call.write_file p text)
  undo_one (link target p) = perform env (Call.symlink target p)

  -- `for (const u of undo.reverse()) await u()`
  unfoldable pub undo_all : List Undo → M H (Unit {0})
  unfolding undo_one
  undo_all [] = pure tt
  undo_all (u ∷ us) = undo_one u >> undo_all us

  -- Take the link, or the copy, out of sites-enabled.
  remove_enabled : String → Option String → Option Stat → Progress → M H Progress
  remove_enabled enabled (some target) st p = do
    perform env (Call.remove_file enabled)
    pure (record p { undo = link target enabled ∷ p.undo })
  remove_enabled enabled none none p = pure p
  remove_enabled enabled none (some st) p = do
    copy ← perform env (Call.read_file enabled)
    perform env (Call.remove_file enabled)
    pure (record p { undo = write enabled (text_or_empty copy) ∷ p.undo })

  remove_available : String → Option String → Progress → M H Progress
  remove_available available none p = pure p
  remove_available available (some text) p = do
    perform env (Call.remove_file available)
    pure (record p { undo = write available text ∷ p.undo })

  -- `readlink(enabled) || await stat(enabled)`
  stat_unless : Option String → String → M H (Option Stat)
  stat_unless (some target) enabled = pure none
  stat_unless none enabled = perform env (Call.stat enabled)

  unfoldable pub take_out : Inventory → List Vhost → String → Progress → M H Progress
  unfolding remove_enabled remove_available stat_unless is_file_name
  take_out inv files name p =
      if not (is_file_name name) || any (λ f. f.name == name) files then throw failed else do
        prev ← perform env (Call.read_file (join (inv.sites_available ∷ name ∷ [])))
        target ← perform env (Call.readlink (join (inv.sites_enabled ∷ name ∷ [])))
        st ← stat_unless target (join (inv.sites_enabled ∷ name ∷ []))
        p1 ← remove_enabled (join (inv.sites_enabled ∷ name ∷ [])) target st p
        p2 ← remove_available (join (inv.sites_available ∷ name ∷ [])) prev p1
        pure (
            if is_some target || is_some st || is_some prev
            then record p2 { removed = p2.removed ++ name ∷ [] }
            else p2)

  undo_write : String → Option String → Undo
  undo_write available none = remove available
  undo_write available (some prev) = write available prev

  -- Writing null is refused by `fs.writeFileSync`.
  write_available : String → Option String → Vhost → Progress → M H Progress
  unfolding undo_write same_text
  write_available available prev f p =
      if same_text prev f.text
      then pure p
      else maybe f.text (throw failed) (λ text. do
        perform env (Call.write_file available text)
        pure (record p {
          undo = undo_write available prev ∷ p.undo;
          changed = p.changed ++ f.name ∷ [];
        }))

  link_enabled : String → String → String → Progress → M H Progress
  link_enabled available enabled name p = do
    st ← perform env (Call.stat enabled)
    if is_some st then pure p else do
      perform env (Call.symlink available enabled)
      pure (record p {
        undo = remove enabled ∷ p.undo;
        changed = if contains p.changed name then p.changed else p.changed ++ name ∷ [];
      })

  unfoldable pub put_in : Inventory → Vhost → Progress → M H Progress
  unfolding write_available link_enabled is_file_name
  put_in inv f p = if not (is_file_name f.name) then throw failed else do
    prev ← perform env (Call.read_file (join (inv.sites_available ∷ f.name ∷ [])))
    p1 ← write_available (join (inv.sites_available ∷ f.name ∷ [])) prev f p
    link_enabled (join (inv.sites_available ∷ f.name ∷ [])) (join (inv.sites_enabled ∷ f.name ∷ []))
        f.name p1

  take_all_out : Inventory → List Vhost → List String → Progress → M H Progress
  take_all_out inv files [] p = pure p
  take_all_out inv files (n ∷ ns) p = take_out inv files n p >>= take_all_out inv files ns

  put_all_in : Inventory → List Vhost → Progress → M H Progress
  put_all_in inv [] p = pure p
  put_all_in inv (f ∷ fs) p = put_in inv f p >>= put_all_in inv fs

  -- `nginx -t`, and what follows it.
  unfoldable pub settle_change : Inventory → Progress → M H Installed
  settle_change inv p =
      if null p.changed && null p.removed
      then pure (record { changed = []; removed = []; reloaded = false })
      else do
        good ← test inv
        if not good
            then undo_all p.undo >> throw failed
            else reload_nginx env
              >> pure (record { changed = p.changed; removed = p.removed; reloaded = true })

  unfoldable pub install : Inventory → List Vhost → List String → M H Installed
  unfolding take_all_out put_all_in
  install inv files removing = do
    p ← take_all_out inv files removing (record { undo = []; changed = []; removed = [] })
    q ← put_all_in inv files p
    settle_change inv q
