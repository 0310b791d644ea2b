-- ===== src/Probes/Laws.antt =====
-- What the counts of lib/probes.js mean: a count is known only where something was answered.
use open_vibe_host.Base.{
  String, none, some, List, [], ◌∷◌, arith, ◌≡◌, ◌≤◌, ◌<◌, ℤ, ◌+ℤ◌, inl, inr, Option-cases,
}
use open_vibe_host.Host.{Env, Call, State, Response, ok, perform, Result-cases, ◌>>=◌, catch}
use open_vibe_host.Host.Json.{Json}
use open_vibe_host.Inventory.{HttpCount, http_json_count}
use open_vibe_host.Probes.{value_at, extra_at, add_fields, http_count, ask, count_one}

module _ {H : Type 0} (env : Env H) where
  -- An extra field that the service reports as null, at any place of the list.
  pub data HasNull (body : Json) : List String → Type 0 where
    here :
        {f : String} {fs : List String}
        → value_at env body (some f) ≡ some Json.null
        → HasNull body (f ∷ fs)
    there : {f : String} {fs : List String} → HasNull body fs → HasNull body (f ∷ fs)

  extra_at-null :
      (body : Json) (f : String)
      → value_at env body (some f) ≡ some Json.null
      → extra_at env body f ≡ none
  unfolding extra_at
  extra_at-null body f e = rw (e, extra_at)

  -- An extra field that is null makes the whole count unknown, whatever the other fields say.
  pub add_fields-null :
      (body : Json) (total : ℤ) (fs : List String)
      → HasNull body fs
      → add_fields env body total fs ≡ none
  unfolding add_fields
  add_fields-null body total [] h = elim h [ ]
  add_fields-null body total (f ∷ fs) (here e) = rw (extra_at-null body f e, add_fields)
  add_fields-null body total (f ∷ fs) (there h) = elim (Option-cases (extra_at env body f)) [
    | inl unknown ↦ rw (unknown, add_fields)
    | inr (extra, e) ↦ rw (e, add_fields) (add_fields-null body (total +ℤ extra) fs h)
  ]

  -- A known count of an http probe comes from an answer of that very call, with a 2xx status.
  pub record Answered (p : HttpCount) (n : ℤ) (s t : State H) : Type 0 where
    pub response : Response
    pub asked : t.trace ≡ record { call = Call.http p.url; answered = ok response } ∷ s.trace
    pub success : (200 ≤ response.status) × (response.status < 300)
    pub counted : http_count env p response ≡ some n

  http_count-success :
      (p : HttpCount) (r : Response) (n : ℤ)
      → http_count env p r ≡ some n
      → (200 ≤ r.status) × (r.status < 300)
  unfolding http_count
  http_count-success p r n h = ground arith

  pub count_one-Answered :
      (p : HttpCount) (n : ℤ) (s t : State H)
      → count_one env (http_json_count p) s ≡ (ok (some n), t)
      → Answered p n s t
  unfolding count_one ask perform ◌>>=◌ catch
  count_one-Answered p n s t h = elim (Result-cases (env.answer (Call.http p.url) s.host).0) [
    | inl (r, e) ↦ record {
      response = r;
      asked = ground arith;
      success = http_count-success p r n (ground arith);
      counted = ground arith;
    }
    | inr (x, e) ↦ ground arith
  ]
