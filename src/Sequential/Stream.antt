-- ===== src/Sequential/Stream.antt =====
-- What one part of the decoder reads from the calls of one part of `Compressor::write`: rules to
-- compose such facts.
use rbsc.Base.{
  ℕ, ◌-◌, ◌<◌, ◌≡◌, refl, Bool, Option, some, List, [], ◌∷◌, ◌++◌, append_assoc, append-nil, subst,
  All, All-append,
}
use rbsc.Codec.{CodeLibrary, CodeConsts, Component, Symbol, u64_mod, encode_all}
use rbsc.Codec.Laws.{IsCodable, decode-encode_all, encode_all-append}
use rbsc.Sequential.{Reader, ◌>>=◌, pure, lift, read}

module _ (lib : CodeLibrary) (cs : CodeConsts) where
  -- From the bits of the calls `syms`, whatever follows them, `r` reads `v` and no more.
  pub record Reads {A : Type 0} (r : Reader A) (v : A) (syms : List Symbol) : Type 0 where
    pub codable : All IsCodable syms
    pub reads : (rest : List Bool) → r (encode_all lib cs syms ++ rest) ≡ some (v, rest)

  pub Reads-pure : {A : Type 0} (v : A) → Reads (pure v) v []
  unfolding encode_all
  Reads-pure v = record { codable = tt; reads = λ rest. refl }

  pub Reads-symbol :
      {B : Type 0} (κ : Component) (v : ℕ) (k : ℕ → Reader B) (b : B) (syms : List Symbol)
      → v < u64_mod - 1
      → Reads (k v) b syms
      → Reads (read lib cs κ >>= k) b ((κ, v) ∷ syms)
  Reads-symbol κ v k b syms h r = record {
    codable = (h, r.codable);
    reads = λ rest. rw (◌>>=◌, decode-encode_all lib cs κ v syms rest h) (r.reads rest);
  }

  pub Reads-read : (κ : Component) (v : ℕ) → v < u64_mod - 1 → Reads (read lib cs κ) v ((κ, v) ∷ [])
  unfolding encode_all
  Reads-read κ v h = record {
    codable = (h, tt);
    reads = λ rest. decode-encode_all lib cs κ v [] rest h;
  }

  pub Reads-append :
      {A B : Type 0} (r : Reader A) (a : A) (k : A → Reader B) (b : B) (xs ys : List Symbol)
      → Reads r a xs
      → Reads (k a) b ys
      → Reads (r >>= k) b (xs ++ ys)
  Reads-append r a k b xs ys hx hy = record {
    codable = All-append IsCodable xs ys hx.codable hy.codable;
    reads = λ rest.
        rw
          (
            encode_all-append lib cs xs ys,
            ◌>>=◌,
            append_assoc (encode_all lib cs xs) (encode_all lib cs ys) rest,
            hx.reads (encode_all lib cs ys ++ rest),
          )
          (hy.reads rest);
  }

  pub Reads-lift :
      {A B : Type 0} (o : Option A) (a : A) (k : A → Reader B) (b : B) (syms : List Symbol)
      → o ≡ some a
      → Reads (k a) b syms
      → Reads (lift o >>= k) b syms
  Reads-lift o a k b syms e h = rw e h

  -- A last step that reads nothing.
  pub Reads-last :
      {A B : Type 0} (r : Reader A) (a : A) (k : A → Reader B) (b : B) (syms : List Symbol)
      → Reads r a syms
      → Reads (k a) b []
      → Reads (r >>= k) b syms
  Reads-last r a k b syms hr hk =
      let h = Reads-append r a k b syms [] hr hk in subst (Reads (r >>= k) b) (append-nil syms) h

  -- A last step that only changes the value.
  pub Reads-map :
      {A B : Type 0} (r : Reader A) (a : A) (f : A → B) (b : B) (syms : List Symbol)
      → f a ≡ b
      → Reads r a syms
      → Reads (r >>= λ x. pure (f x)) b syms
  Reads-map r a f b syms e h = record {
    codable = h.codable;
    reads = λ rest. rw (◌>>=◌, h.reads rest, e);
  }

  pub Reads-value :
      {A : Type 0} (r : Reader A) (a b : A) (syms : List Symbol)
      → a ≡ b
      → Reads r a syms
      → Reads r b syms
  Reads-value r a b syms e h = rw e at h
