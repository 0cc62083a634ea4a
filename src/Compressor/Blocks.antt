-- ===== src/Compressor/Blocks.antt =====
-- One round of the loop of `diff_comp`: what is known of the blocks and extra nodes that it pushes.
use rbsc.Base.{
  ℕ, ◌+◌, ◌≤◌, ◌<◌, ◌≡◌, refl, sym, ap, ◌∙◌, ◌⊎◌, inl, inr, arith, Bool, true, false, List, [], ◌∷◌,
  ◌++◌, append_assoc, length, sum, All, take, length-append, take_append_left, drop_append_left,
  Interleave, done, left, right, Interleave-nil_left,
}
use rbsc.CopyList.{masked, ends_copying}
use rbsc.Compressor.{Pushed, diff_end, push_block, push_extra}

abbrev pub AllPos : List ℕ → Type 0
AllPos = All (λ b. 0 < b)

abbrev pub rest_of : List ℕ → List ℕ
rest_of [] = []
rest_of (b ∷ bs) = bs

-- The next round lowers a slice.
abbrev pub Ready : Bool → List ℕ → List ℕ → Type 0
Ready copying [] ref = ⊥
Ready copying (x ∷ xs) [] = ⊥
Ready true (x ∷ xs) (y ∷ ys) = x ≡ y
Ready false (x ∷ xs) (y ∷ ys) = y < x

-- The elements of the current block, if it is copied.
abbrev pub kept : Bool → List ℕ → List ℕ
kept true pre = pre
kept false pre = []

-- What the loop pushes, from a state whose current block holds `len` elements in front of `ref`.
pub record IsDiff (curr ref : List ℕ) (len : ℕ) (copying : Bool) (p : Pushed) : Type 0 where
  pub copied : List ℕ
  pub shuffle : Interleave copied p.extra_nodes curr
  pub mask :
      (pre : List ℕ)
      → length pre ≡ len
      → masked copying p.blocks (pre ++ ref) ≡ kept copying pre ++ copied
  pub fits : sum p.blocks ≤ len + length ref
  -- A skipped block that is the last one leaves something behind it.
  pub remains :
      0 < len + length ref → ends_copying copying p.blocks ≡ true → sum p.blocks < len + length ref
  pub later_pos : AllPos (rest_of p.blocks)
  pub pos : (0 < len) ⊎ Ready copying curr ref → AllPos p.blocks

len_pos : {len : ℕ} → (0 < len) ⊎ ⊥ → 0 < len
len_pos (inl h) = h
len_pos (inr h) = absurd h

take-mask :
    (pre ref : List ℕ) (len : ℕ) → length pre ≡ len → take len (pre ++ ref) ++ [] ≡ pre ++ []
take-mask pre ref len e = ap (λ l. l ++ []) (take_append_left pre ref len (sym e))

-- `curr` is used up, or `ref` is.
pub IsDiff-end_curr :
    (ref : List ℕ) (len : ℕ) (copying : Bool)
    → IsDiff [] ref len copying (diff_end [] ref len copying)
IsDiff-end_curr [] len true = record {
  copied = [];
  shuffle = done;
  mask = λ pre e. refl;
  fits = omega arith;
  remains = λ h e. omega arith;
  later_pos = tt;
  pos = λ _. tt;
}
IsDiff-end_curr (y ∷ ys) len true = record {
  copied = [];
  shuffle = done;
  mask = λ pre e. take-mask pre (y ∷ ys) len e;
  fits = omega arith;
  remains = λ h e. cc;
  later_pos = tt;
  pos = λ h. (len_pos h, tt);
}
IsDiff-end_curr ref len false = record {
  copied = [];
  shuffle = done;
  mask = λ pre e. refl;
  fits = omega arith;
  remains = λ h e. cc;
  later_pos = tt;
  pos = λ _. tt;
}

pub IsDiff-end_ref :
    (x : ℕ) (xs : List ℕ) (len : ℕ) (copying : Bool)
    → IsDiff (x ∷ xs) [] len copying (diff_end (x ∷ xs) [] len copying)
IsDiff-end_ref x xs len true = record {
  copied = [];
  shuffle = Interleave-nil_left (x ∷ xs);
  mask = λ pre e. refl;
  fits = omega arith;
  remains = λ h e. omega arith;
  later_pos = tt;
  pos = λ _. tt;
}
IsDiff-end_ref x xs len false = record {
  copied = [];
  shuffle = Interleave-nil_left (x ∷ xs);
  mask = λ pre e. refl;
  fits = omega arith;
  remains = λ h e. cc;
  later_pos = tt;
  pos = λ _. tt;
}

module _ {x y len : ℕ} {xs ys : List ℕ} {p : Pushed} where
  -- `Greater` while copying.
  pub IsDiff-stop :
      y < x
      → IsDiff (x ∷ xs) (y ∷ ys) 0 false p
      → IsDiff (x ∷ xs) (y ∷ ys) len true (push_block len p)
  IsDiff-stop h d = record {
    copied = d.copied;
    shuffle = d.shuffle;
    mask = λ pre e.
        rw (take_append_left pre (y ∷ ys) len (sym e), drop_append_left pre (y ∷ ys) len (sym e))
          (ap (λ l. pre ++ l) (d.mask [] refl));
    fits = omega (arith, d.fits);
    remains = λ h e. omega (arith, d.remains (omega arith) e);
    later_pos = d.pos (inr h);
    pos = λ r. (stop_pos r, d.pos (inr h));
  }
    where
      stop_pos : (0 < len) ⊎ (x ≡ y) → 0 < len
      stop_pos (inl l) = l
      stop_pos (inr e) = absurd (omega arith)

  -- `Equal` while skipping.
  pub IsDiff-resume :
      x ≡ y
      → IsDiff (x ∷ xs) (y ∷ ys) 0 true p
      → IsDiff (x ∷ xs) (y ∷ ys) len false (push_block len p)
  IsDiff-resume h d = record {
    copied = d.copied;
    shuffle = d.shuffle;
    mask = λ pre e. rw (drop_append_left pre (y ∷ ys) len (sym e)) (d.mask [] refl);
    fits = omega (arith, d.fits);
    remains = λ h e. omega (arith, d.remains (omega arith) e);
    later_pos = d.pos (inr h);
    pos = λ r. (resume_pos r, d.pos (inr h));
  }
    where
      resume_pos : (0 < len) ⊎ (y < x) → 0 < len
      resume_pos (inl l) = l
      resume_pos (inr e) = absurd (omega arith)

  -- `Less`: the node is an extra one.
  pub IsDiff-extra :
      (copying : Bool)
      → x < y
      → IsDiff xs (y ∷ ys) len copying p
      → IsDiff (x ∷ xs) (y ∷ ys) len copying (push_extra x p)
  IsDiff-extra copying h d = record {
    copied = d.copied;
    shuffle = right x d.shuffle;
    mask = d.mask;
    fits = d.fits;
    remains = d.remains;
    later_pos = d.later_pos;
    pos = λ r. d.pos (inl (extra_pos copying r));
  }
    where
      extra_pos : (c : Bool) → (0 < len) ⊎ Ready c (x ∷ xs) (y ∷ ys) → 0 < len
      extra_pos c (inl l) = l
      extra_pos true (inr e) = absurd (omega arith)
      extra_pos false (inr e) = absurd (omega arith)

  -- `Equal` while copying.
  pub IsDiff-copy : x ≡ y → IsDiff xs ys (len + 1) true p → IsDiff (x ∷ xs) (y ∷ ys) len true p
  IsDiff-copy h d = record {
    copied = x ∷ d.copied;
    shuffle = left x d.shuffle;
    mask = λ pre e.
        ap (masked true p.blocks) (sym (append_assoc pre (y ∷ []) ys))
        ∙ d.mask (pre ++ y ∷ []) (omega (arith, length-append pre (y ∷ [])))
        ∙ append_assoc pre (y ∷ []) d.copied
        ∙ ap (λ z. pre ++ z ∷ d.copied) (sym h);
    fits = omega (arith, d.fits);
    remains = λ h e. omega (arith, d.remains (omega arith) e);
    later_pos = d.later_pos;
    pos = λ _. d.pos (inl (omega arith));
  }

  -- `Greater` while skipping.
  pub IsDiff-skip : IsDiff (x ∷ xs) ys (len + 1) false p → IsDiff (x ∷ xs) (y ∷ ys) len false p
  IsDiff-skip d = record {
    copied = d.copied;
    shuffle = d.shuffle;
    mask = λ pre e.
        ap (masked false p.blocks) (sym (append_assoc pre (y ∷ []) ys))
        ∙ d.mask (pre ++ y ∷ []) (omega (arith, length-append pre (y ∷ [])));
    fits = omega (arith, d.fits);
    remains = λ h e. omega (arith, d.remains (omega arith) e);
    later_pos = d.later_pos;
    pos = λ _. d.pos (inl (omega arith));
  }
