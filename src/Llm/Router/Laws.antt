-- ===== src/Llm/Router/Laws.antt =====
-- The fallback semantics of the router.
use aiva_v.Prelude.{
  String, not, ◌≡◌, refl, Bool, true, false, Option, none, some, List, [], ◌∷◌, ◌++◌, inl, inr,
  Bool-cases, ap, Option-cases, arith, Dict, lookup, if◌then◌else◌,
}
use text.Mathlib.Text.{◌==◌}
use text.Mathlib.TextEquality.{eq_iff}
use mathlib.Core.List.{append_assoc}
use aiva_v.Llm.Errors.{LlmError, Outcome, returned, raised, falls_back}
use aiva_v.Llm.Router.{
  Response, Stream, Provider, setdefault, routed_via, exhausted, try_each, stream_each,
}

-- The stream ended by itself, or with an error that the router does not fall back on.
abbrev pub ends_stream : {K : Type 0} → Stream K → Bool
ends_stream s = elim (s.error) [ none ↦ true | some e ↦ not (falls_back e) ]

-- The response as the provider gave it, but that its metadata names the provider that it was routed
-- through, unless they named one already.
pub record Marked {C : Type 0} (name : String) (r r' : Response C) : Type 0 where
  pub same_content : r'.content ≡ r.content
  pub first_mark :
      lookup "routed_via" r.metadata ≡ none → lookup "routed_via" r'.metadata ≡ some name
  pub old_mark :
      (n : String)
      → lookup "routed_via" r.metadata ≡ some n
      → lookup "routed_via" r'.metadata ≡ some n
  pub other_keys :
      (k : String) → ("routed_via" == k) ≡ false → lookup k r'.metadata ≡ lookup k r.metadata

lookup-append :
    (k j n : String) (d : Dict String)
    → lookup k (d ++ (j, n) ∷ [])
      ≡ elim (lookup k d) [ some v ↦ some v | none ↦ if j == k then some n else none ]
unfolding lookup
lookup-append k j n [] = refl
lookup-append k j n ((i, v) ∷ d) = ground (arith, lookup-append k j n d)

routed_via-Marked :
    {C : Type 0} (name : String) (r : Response C) → Marked name r (routed_via name r)
unfolding routed_via setdefault
routed_via-Marked name r = elim (Option-cases (lookup "routed_via" r.metadata)) [
  | inl e ↦ record {
    same_content = refl;
    first_mark = λ h. ground (
      arith,
      e,
      lookup-append "routed_via" "routed_via" name r.metadata,
      eq_iff "routed_via" "routed_via",
    );
    old_mark = λ n h. ground (arith, e, h);
    other_keys = λ k h. ground (arith, e, h, lookup-append k "routed_via" name r.metadata);
  }
  | inr (m, e) ↦ record {
    same_content = refl;
    first_mark = λ h. ground (arith, e, h);
    old_mark = λ n h. ground (arith, e, h);
    other_keys = λ k h. ground (arith, e, h);
  }
]

module _ {W Q C K : Type 0} (q : Q) where
  -- Every provider of the list is asked in turn and raises an error that the router falls back on.
  pub data Falls : List (Provider W Q C K) → W → W → Type 0 where
    nobody : {w : W} → Falls [] w w
    falls :
        {p : Provider W Q C K} {ps : List (Provider W Q C K)} {w w' w'' : W} (e : LlmError)
        → p.achat q w ≡ (raised e, w')
        → falls_back e ≡ true
        → Falls ps w' w''
        → Falls (p ∷ ps) w w''

  -- How a run of the loop over `ps` from `w` ended.
  pub data Routed (name : String) (ps : List (Provider W Q C K)) (w : W)
      : Outcome (Response C) × W → Type 0 where
    all_failed : {w' : W} → Falls ps w w' → Routed name ps w (raised (exhausted name), w')
    answered :
        {w' w'' : W} (before : List (Provider W Q C K)) (p : Provider W Q C K)
        (after : List (Provider W Q C K)) (r r' : Response C)
        → ps ≡ before ++ p ∷ after
        → Falls before w w'
        → p.achat q w' ≡ (returned r, w'')
        → Marked p.provider_name r r'
        → Routed name ps w (returned r', w'')
    failed :
        {w' w'' : W} (before : List (Provider W Q C K)) (p : Provider W Q C K)
        (after : List (Provider W Q C K)) (e : LlmError)
        → ps ≡ before ++ p ∷ after
        → Falls before w w'
        → p.achat q w' ≡ (raised e, w'')
        → falls_back e ≡ false
        → Routed name ps w (raised e, w'')

  Routed-cons :
      (name : String) (p : Provider W Q C K) (ps : List (Provider W Q C K)) {w w' : W}
      {o : Outcome (Response C) × W} (e : LlmError)
      → p.achat q w ≡ (raised e, w')
      → falls_back e ≡ true
      → Routed name ps w' o
      → Routed name (p ∷ ps) w o
  Routed-cons name p ps e h f (all_failed fs) = all_failed (falls e h f fs)
  Routed-cons name p ps e h f (answered before p' after r r' s fs a m) =
      answered (p ∷ before) p' after r r' (ap (λ t. p ∷ t) s) (falls e h f fs) a m
  Routed-cons name p ps e h f (failed before p' after e' s fs a b) =
      failed (p ∷ before) p' after e' (ap (λ t. p ∷ t) s) (falls e h f fs) a b

  try_each_by :
      (name : String) (p : Provider W Q C K) (ps : List (Provider W Q C K)) (w : W)
      (o : Outcome (Response C) × W)
      → p.achat q w ≡ o
      → ((w' : W) → Routed name ps w' (try_each name q ps w'))
      → Routed name (p ∷ ps) w (try_each name q (p ∷ ps) w)
  unfolding try_each
  try_each_by name p ps w (returned r, w') e ih =
      rw (e, try_each) (answered [] p ps r _ refl nobody e (routed_via-Marked p.provider_name r))
  try_each_by name p ps w (raised x, w') e ih = elim (Bool-cases (falls_back x)) [
    | inl b ↦ rw (e, try_each, b) (Routed-cons name p ps x e b (ih w'))
    | inr b ↦ rw (e, try_each, b) (failed [] p ps x refl nobody e b)
  ]

  -- However the providers behave, the loop of `achat` ends in one of three ways: all of them raised
  -- an error that falls back and the router raises RetryExhaustedError; or the first provider that
  -- did not raise such an error answered, and the router returns that response, its content unchanged
  -- and its metadata too but for the entry "routed_via", which is the provider's name unless the
  -- provider set it; or that provider raised another error, which the router raises unchanged. In
  -- the last two the providers after it are not called.
  pub try_each-Routed :
      (name : String) (ps : List (Provider W Q C K)) (w : W)
      → Routed name ps w (try_each name q ps w)
  unfolding try_each
  try_each-Routed name [] w = all_failed nobody
  try_each-Routed name (p ∷ ps) w =
      try_each_by name p ps w (p.achat q w) refl (try_each-Routed name ps)

  -- How a run of the loop of `astream` over `ps` from `w` ended, with what the consumer got.
  pub data StreamFalls : List (Provider W Q C K) → W → List K → W → Type 0 where
    nobody_streamed : {w : W} → StreamFalls [] w [] w
    broke :
        {p : Provider W Q C K} {ps : List (Provider W Q C K)} {w w' w'' : W} {ds : List K}
        (cs : List K) (e : LlmError)
        → p.astream q w ≡ (record { chunks = cs; error = some e }, w')
        → falls_back e ≡ true
        → StreamFalls ps w' ds w''
        → StreamFalls (p ∷ ps) w (cs ++ ds) w''

  pub data Streamed (name : String) (ps : List (Provider W Q C K)) (w : W)
      : Stream K × W → Type 0 where
    all_broke :
        {w' : W} {cs : List K}
        → StreamFalls ps w cs w'
        → Streamed name ps w (record { chunks = cs ++ []; error = some (exhausted name) }, w')
    ended :
        {w' w'' : W} {cs : List K} (before : List (Provider W Q C K)) (p : Provider W Q C K)
        (after : List (Provider W Q C K)) (s : Stream K)
        → ps ≡ before ++ p ∷ after
        → StreamFalls before w cs w'
        → p.astream q w' ≡ (s, w'')
        → ends_stream s ≡ true
        → Streamed name ps w (record { chunks = cs ++ s.chunks; error = s.error }, w'')

  Streamed-cons :
      (name : String) (p : Provider W Q C K) (ps : List (Provider W Q C K)) {w w' w'' : W}
      (cs : List K) (e : LlmError) (s : Stream K)
      → p.astream q w ≡ (record { chunks = cs; error = some e }, w')
      → falls_back e ≡ true
      → Streamed name ps w' (s, w'')
      → Streamed name (p ∷ ps) w (record { chunks = cs ++ s.chunks; error = s.error }, w'')
  Streamed-cons name p ps {w} cs e s h f (all_broke {cs = ds} fs) =
      rw (← append_assoc cs ds []) (all_broke (broke cs e h f fs))
  Streamed-cons name p ps cs e s h f (ended {cs = ds} before p' after t eq fs a x) =
      rw (← append_assoc cs ds t.chunks)
        (ended (p ∷ before) p' after t (ap (λ l. p ∷ l) eq) (broke cs e h f fs) a x)

  stream_each_by :
      (name : String) (p : Provider W Q C K) (ps : List (Provider W Q C K)) (w : W) (cs : List K)
      (x : Option LlmError) (w' : W)
      → p.astream q w ≡ (record { chunks = cs; error = x }, w')
      → ((v : W) → Streamed name ps v (stream_each name q ps v))
      → Streamed name (p ∷ ps) w (stream_each name q (p ∷ ps) w)
  unfolding stream_each
  stream_each_by name p ps w cs none w' e ih =
      rw (e, stream_each)
        (ended [] p ps (record { chunks = cs; error = none }) refl nobody_streamed e refl)
  stream_each_by name p ps w cs (some x) w' e ih = elim (Bool-cases (falls_back x)) [
    | inl b ↦
        rw (e, stream_each, b)
          (Streamed-cons name p ps cs x (stream_each name q ps w').0 e b (ih w'))
    | inr b ↦
        rw (e, stream_each, b)
          (ended [] p ps (record { chunks = cs; error = some x }) refl nobody_streamed e (rw b))
  ]

  -- However the providers stream, the consumer of `astream` gets everything that the providers
  -- which failed yielded before they failed, in order, followed by the whole stream of the first
  -- provider that ended otherwise, with its error if it had one; or RetryExhaustedError after the
  -- partial output of them all. Nothing that a failed provider yielded is taken back.
  pub stream_each-Streamed :
      (name : String) (ps : List (Provider W Q C K)) (w : W)
      → Streamed name ps w (stream_each name q ps w)
  unfolding stream_each
  stream_each-Streamed name [] w = all_broke nobody_streamed
  stream_each-Streamed name (p ∷ ps) w =
      stream_each_by name p ps w (p.astream q w).0.chunks (p.astream q w).0.error (p.astream q w).1
        refl (stream_each-Streamed name ps)
