-- ===== src/Console/Counts.antt =====
-- The counters of a command connection.
use data_sync.Base.{
  ℕ, suc, ◌+◌, ◌≤◌, ◌<◌, ◌≡◌, ◌⊎◌, nat_eq, refl, arith, ap, ◌∙◌, u64_mod, Bool-cases, inl, inr,
}
use data_sync.Text.{Text, starts_with, lit}
use data_sync.Json.{Json}
use data_sync.State.{AppState}
use data_sync.State.Settings.{set_jwt_key}
use data_sync.State.Tokens.{saturating_add}
use data_sync.Commands.Process.Effects.{IsEffect}
use data_sync.Commands.Process.Kept.{kept-IsEffect}
use data_sync.Console.{count_request, count_reply, is_invalid}

-- The counters of requests and of errors.
unfoldable pub counts_of : {Value : Type 0} → AppState Value → ℕ × ℕ
counts_of app = (app.total_command_requests, app.command_error_count)

module _ {Value : Type 0} ⦃json : Json Value⦄ where
  pub counts-IsEffect :
      (app app' : AppState Value) → IsEffect app app' → counts_of app' ≡ counts_of app
  unfolding counts_of set_jwt_key
  counts-IsEffect app app' h =
      kept-IsEffect counts_of (λ app'' rooms next_room_id. refl) app app' (λ key. refl) h

-- At most `n` requests more are counted, and no more errors than requests.
pub record IsCounted (n : ℕ) (before later : ℕ × ℕ) : Type 0 where
  pub grows : (before.0 ≤ later.0) × (before.1 ≤ later.1)
  pub requests : later.0 ≤ before.0 + n
  pub errors : later.1 + before.0 ≤ before.1 + later.0

module _ {Value : Type 0} where
  pub unchanged :
      (n : ℕ) (app app' : AppState Value)
      → counts_of app' ≡ counts_of app
      → IsCounted n (counts_of app) (counts_of app')
  unchanged n app app' p =
      rw p (record {
        grows = (omega arith, omega arith);
        requests = omega arith;
        errors = omega arith;
      })

  pub counts-count_request :
      (app : AppState Value)
      → app.total_command_requests + 1 < u64_mod
      → counts_of (count_request app) ≡ (app.total_command_requests + 1, app.command_error_count)
  unfolding counts_of count_request saturating_add
  counts-count_request app fits = ap (λ t. (t, app.command_error_count)) (ground arith)

  pub counts-count_reply :
      (resp : Text) (app : AppState Value)
      → app.command_error_count + 1 < u64_mod
      → (counts_of (count_reply resp app) ≡ counts_of app)
        ⊎ (counts_of (count_reply resp app)
            ≡ (app.total_command_requests, app.command_error_count + 1))
  unfolding count_reply counts_of saturating_add
  counts-count_reply resp app fits = elim (Bool-cases (starts_with resp (lit "ERROR"))) [
    | inl failed ↦
        let exact : saturating_add app.command_error_count 1 ≡ app.command_error_count + 1 =
          ground arith in
        elim (Bool-cases (is_invalid resp)) [
          | inl invalid ↦
              rw (failed, invalid) (inr (ap (λ e. (app.total_command_requests, e)) exact))
          | inr valid ↦ rw (failed, valid) (inr (ap (λ e. (app.total_command_requests, e)) exact))
        ]
    | inr fine ↦ rw fine (inl refl)
  ]

  pub replied :
      (resp : Text) (app app' : AppState Value)
      → app.total_command_requests + 1 < u64_mod
      → app.command_error_count ≤ app.total_command_requests
      → counts_of app' ≡ counts_of (count_request app)
      → IsCounted 1 (counts_of app) (counts_of (count_reply resp app'))
  replied resp app app' fits le p =
      let q : counts_of app' ≡ (app.total_command_requests + 1, app.command_error_count) =
        p ∙ counts-count_request app fits in
      let t : app'.total_command_requests ≡ app.total_command_requests + 1 =
        unfold counts_of in ap (λ (x : ℕ × ℕ). x.0) q in
      let e : app'.command_error_count ≡ app.command_error_count =
        unfold counts_of in ap (λ (x : ℕ × ℕ). x.1) q in
      elim (counts-count_reply resp app' (omega (arith, e, fits, le))) [
        | inl same ↦
            rw (same, q)
              (unfold counts_of in
                record {
                  grows = (omega arith, omega arith);
                  requests = omega arith;
                  errors = omega arith;
                })
        | inr more ↦
            rw (more, t, e)
              (unfold counts_of in
                record {
                  grows = (omega arith, omega arith);
                  requests = omega arith;
                  errors = omega arith;
                })
      ]

pub IsCounted-trans :
    (n : ℕ) (a b c : ℕ × ℕ) → IsCounted 1 a b → IsCounted n b c → IsCounted (suc n) a c
IsCounted-trans n a b c f g = record {
  grows = (omega (arith, f.grows, g.grows), omega (arith, f.grows, g.grows));
  requests = omega (arith, f.requests, g.requests);
  errors = omega (arith, f.errors, g.errors);
}

pub IsCounted-weaken : (n : ℕ) (a b : ℕ × ℕ) → IsCounted 1 a b → IsCounted (suc n) a b
IsCounted-weaken n a b f = record {
  grows = f.grows;
  requests = omega (arith, f.requests);
  errors = f.errors;
}
