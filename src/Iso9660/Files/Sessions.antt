-- ===== src/Iso9660/Files/Sessions.antt =====
-- The sessions of the ROM service, and the cache of opened files.
use genode_world.Prelude.{
  ℕ, ◌≤◌, ◌<◌, ◌≡◌, refl, sym, ap, ◌∙◌, ltb, List, ◌∷◌, Option, none, some, take, list_eq,
  list_eq_refl, list_eq_sound, arith, inl, inr, Bool-cases, if-true, if-false,
}
use genode_world.Iso9660.Run.{
  Run, done, throw, beyond, unfinished, ◌>>=◌, io_error, non_data_disc, file_not_found,
}
use genode_world.Iso9660.Path.{cached_root}
use genode_world.Iso9660.Files.{
  Env, Server, session, insufficient_ram_quota, reply, remember, with_root, open_uncached,
  from_cache, rom_component, create_session, lookup, open_file,
}

-- A session of a path that was opened before: the same dataspace, and no access to the disc.
lookup_front :
    (path ds : List ℕ) (rest : List (List ℕ × List ℕ)) → lookup path ((path, ds) ∷ rest) ≡ some ds
unfolding lookup
lookup_front path ds rest = if-true _ _ _ (list_eq_refl path)

rom_component_hit :
    (env : Env) (path ds : List ℕ) (s : Server)
    → lookup path s.cache ≡ some ds
    → rom_component env path s ≡ (session ds, s)
unfolding rom_component
rom_component_hit env path ds s h = ap (from_cache env path s) h

reply-session : (file : Run (List ℕ)) (ds : List ℕ) → reply file ≡ session ds → file ≡ done ds
reply-session (done d) ds h = cc
reply-session (throw io_error) ds h = cc
reply-session (throw non_data_disc) ds h = cc
reply-session (throw file_not_found) ds h = cc
reply-session beyond ds h = cc
reply-session unfinished ds h = cc

remember-done :
    (path ds : List ℕ) (file : Run (List ℕ)) (s : Server)
    → file ≡ done ds
    → lookup path (remember path file s).cache ≡ some ds
remember-done path ds (done d) s h =
    let same : d ≡ ds = cc in lookup_front path d s.cache ∙ ap some same
remember-done path ds (throw e) s h = cc
remember-done path ds beyond s h = cc
remember-done path ds unfinished s h = cc

from_cache-cached :
    (env : Env) (path ds : List ℕ) (s : Server) (cached : Option (List ℕ))
    → lookup path s.cache ≡ cached
    → (from_cache env path s cached).0 ≡ session ds
    → lookup path (from_cache env path s cached).1.cache ≡ some ds
unfolding open_uncached
from_cache-cached env path ds s (some d) e h = let same : d ≡ ds = cc in e ∙ ap some same
from_cache-cached env path ds s none e h =
    let root = cached_root env.volumes env.block s.root in
    let file = root >>= λ r. open_file env r path in
    remember-done path ds file (with_root root s) (reply-session file ds h)

rom_component-cached :
    (env : Env) (path ds : List ℕ) (s : Server)
    → (rom_component env path s).0 ≡ session ds
    → lookup path (rom_component env path s).1.cache ≡ some ds
unfolding rom_component
rom_component-cached env path ds s h = from_cache-cached env path ds s (lookup path s.cache) refl h

module _ (md_size quota : ℕ) (env : Env) (label : List ℕ) (s : Server) where
  create_session-enough :
      md_size ≤ quota
      → create_session md_size env quota label s ≡ rom_component env (take 127 label) s
  unfolding create_session
  create_session-enough h = ground arith

  create_session-small :
      quota < md_size → create_session md_size env quota label s ≡ (insufficient_ram_quota, s)
  unfolding create_session
  create_session-small h = ground arith

  enough-of-session :
      (ds : List ℕ) → (create_session md_size env quota label s).0 ≡ session ds → md_size ≤ quota
  unfolding create_session
  enough-of-session ds h = ground arith

-- Once a session for a label was opened, a further session for it with enough quota gets the same
-- dataspace, whatever the disc does, and leaves the server as it is.
pub create_session_again :
    (md_size quota quota' : ℕ) (env env' : Env) (label ds : List ℕ) (s : Server)
    → (create_session md_size env quota label s).0 ≡ session ds
    → md_size ≤ quota'
    → create_session md_size env' quota' label (create_session md_size env quota label s).1
      ≡ (session ds, (create_session md_size env quota label s).1)
create_session_again md_size quota quota' env env' label ds s h k =
    let path : List ℕ = take 127 label in
    let first =
      create_session-enough md_size quota env label s
        (enough-of-session md_size quota env label s ds h) in
    let opened : (rom_component env path s).0 ≡ session ds = ap (λ p. p.0) (sym first) ∙ h in
    let cached = rom_component-cached env path ds s opened in
    rw first (
      create_session-enough md_size quota' env' label (rom_component env path s).1 k
      ∙ rom_component_hit env' path ds (rom_component env path s).1 cached)

-- A file that is in the cache stays there.
lookup_behind :
    (path p ds d : List ℕ) (rest : List (List ℕ × List ℕ))
    → lookup path rest ≡ none
    → lookup p rest ≡ some ds
    → lookup p ((path, d) ∷ rest) ≡ some ds
lookup_behind path p ds d rest miss h = elim (Bool-cases (list_eq path p)) [
  | inl y ↦
      let same = list_eq_sound path p y in
      let both = sym miss ∙ ap (λ q. lookup q rest) same ∙ h in cc
  | inr n ↦ unfold lookup in (if-false _ _ _ n ∙ h)
]

remember_keeps :
    (path p ds : List ℕ) (file : Run (List ℕ)) (s : Server)
    → lookup path s.cache ≡ none
    → lookup p s.cache ≡ some ds
    → lookup p (remember path file s).cache ≡ some ds
remember_keeps path p ds (done d) s miss h = lookup_behind path p ds d s.cache miss h
remember_keeps path p ds (throw e) s miss h = h
remember_keeps path p ds beyond s miss h = h
remember_keeps path p ds unfinished s miss h = h

with_root-cache : (root : Run (List ℕ)) (s : Server) → (with_root root s).cache ≡ s.cache
with_root-cache (done r) s = refl
with_root-cache (throw e) s = refl
with_root-cache beyond s = refl
with_root-cache unfinished s = refl

from_cache_keeps :
    (env : Env) (path p ds : List ℕ) (s : Server) (cached : Option (List ℕ))
    → lookup path s.cache ≡ cached
    → lookup p s.cache ≡ some ds
    → lookup p (from_cache env path s cached).1.cache ≡ some ds
unfolding open_uncached
from_cache_keeps env path p ds s (some d) e h = h
from_cache_keeps env path p ds s none e h =
    let root = cached_root env.volumes env.block s.root in
    let file = root >>= λ r. open_file env r path in
    let same = with_root-cache root s in
    remember_keeps path p ds file (with_root root s) (ap (lookup path) same ∙ e)
      (ap (lookup p) same ∙ h)

pub create_session_keeps :
    (md_size quota : ℕ) (env : Env) (label p ds : List ℕ) (s : Server)
    → lookup p s.cache ≡ some ds
    → lookup p (create_session md_size env quota label s).1.cache ≡ some ds
unfolding create_session rom_component
create_session_keeps md_size quota env label p ds s h = elim (Bool-cases (ltb quota md_size)) [
  | inl y ↦ rw y h
  | inr n ↦ rw n (from_cache_keeps env (take 127 label) p ds s _ refl h)
]
