-- ===== src/Http/Responses.antt =====
-- What a request to a path of sql_db_api_plugin is answered with.
use eos_sql_db_plugin.Base.{ℕ, String, ◌≡◌, ◌∷◌, refl, subst}
use eos_sql_db_plugin.Effect.{
  Exception, Result, ok, throws, Effect, lift, try_catch, ◌>>=◌, handled, continued,
}
use eos_sql_db_plugin.Http.{
  HttpPlugin, HttpLaws, Call, call_handler, body_or_object, on_database, on_connection,
}

-- The response to a request: 200 with the answer's JSON text, or that of the exception.
abbrev pub response_of :
    {S : Type 0} → (k : Call S) → (Exception → ℕ × String) → Result k.Answer → ℕ × String
response_of k error (ok a) = (200, k.json_of_answer a)
response_of k error (throws e) = error e

abbrev pub answer_to : {S : Type 0} → (k : Call S) → Result k.Params → Effect S k.Answer
answer_to k (ok p) s = k.call p s
answer_to k (throws e) s = (throws e, s)

module _ {S : Type 0} (h : HttpPlugin) (laws : HttpLaws h) (api_name : String) (k : Call S) where
  open laws use {sent, error_of, cb_sends, handle_exception_sends}

  -- The state after exactly one response.
  abbrev Sends : Result (Unit {0}) × (S × h.Conn) → (s' : S) → h.Conn → ℕ × String → Type 0
  Sends r s' c response = (t : h.Conn) × (r ≡ (ok tt, (s', t))) × (sent t ≡ response ∷ sent c)

  abbrev failed : String → Exception → ℕ × String
  failed body e = error_of e api_name k.call_name body

  abbrev caught : String → Exception → Effect (S × h.Conn) (Unit {0})
  caught body e = on_connection (h.handle_exception e api_name k.call_name body)

  answered :
      (body : String) (r : Result k.Answer) (s' : S) (c : h.Conn)
      → Sends
          (handled
            (continued (r, (s', c)) (λ a. on_connection (h.cb 200 (k.json_of_answer a))))
            (caught body))
          s'
          c
          (response_of k (failed body) r)
  answered body (ok a) s' c =
      let (t, e, q) = cb_sends 200 (k.json_of_answer a) c in (t, rw e refl, q)
  answered body (throws x) s' c =
      let (t, e, q) = handle_exception_sends x api_name k.call_name body c in (t, rw e refl, q)

  converted :
      (body : String) (r : Result k.Params) (s : S) (c : h.Conn)
      → Sends
          (handled
            (continued
              (r, (s, c))
              (λ p. on_database (k.call p) >>= λ a. on_connection (h.cb 200 (k.json_of_answer a))))
            (caught body))
          (answer_to k r s).1
          c
          (response_of k (failed body) (answer_to k r s).0)
  unfolding ◌>>=◌
  converted body (ok p) s c = answered body (k.call p s).0 (k.call p s).1 c
  converted body (throws x) s c = answered body (throws x) s c

  -- With an HTTP plugin that sends one response for each call of its callback and of its
  -- handle_exception, every request gets exactly one response: 200 with the JSON text of the answer
  -- where the parameters convert and the call returns, else the one for the exception. What the call
  -- has written to the database stays written. An empty body stands for an empty object.
  pub call_handler_responds :
      (body : String) (s : S) (c : h.Conn)
      → (let answer = answer_to k (k.params_of_json (body_or_object body)) s in
          (t : h.Conn) × (call_handler h api_name k body (s, c) ≡ (ok tt, (answer.1, t)))
          × (sent t
              ≡ response_of k (λ e. error_of e api_name k.call_name (body_or_object body)) answer.0
                ∷ sent c))
  unfolding call_handler lift ◌>>=◌ try_catch
  call_handler_responds body s c =
      converted (body_or_object body) (k.params_of_json (body_or_object body)) s c

  pub call_handler-ok :
      (body : String) (s s' : S) (c : h.Conn) (a : k.Answer)
      → answer_to k (k.params_of_json (body_or_object body)) s ≡ (ok a, s')
      → Sends (call_handler h api_name k body (s, c)) s' c (200, k.json_of_answer a)
  call_handler-ok body s s' c a e =
      subst
        (λ (r : Result k.Answer × S).
          Sends (call_handler h api_name k body (s, c)) r.1 c
            (response_of k (failed (body_or_object body)) r.0))
        e (call_handler_responds body s c)
