-- ===== src/Daemonize/Copies.antt =====
-- The daemon's copies of its first descriptors, which spawn gives back to a child.
use kfmon.Prelude.{ℕ, ◌<◌, ◌≤◌, ◌≡◌, ◌≢◌, refl, ◌∙◌, none, some, Option-cases, inl, inr, arith}
use kfmon.Descriptors.{
  File, Descriptors, get, put, lowest, open_file, dup2, close, get-put, get-lowest, IsFull,
  lowest-IsFull, get-dup2, get-open_file, open_file-IsFull, dup-lowest, lowest-open_file,
}
use kfmon.Daemonize.{Image, store_standard, spawn_child}

-- The process keeps copies of what `start` had as its standard descriptors, in places that `start` did
-- not use; apart from them and the standard descriptors, what is open is what `start` had.
pub record Keeps (start : Descriptors) (p : Image) : Type 0 where
  pub a : ℕ
  pub b : ℕ
  pub c : ℕ
  pub stored : (p.orig_stdin ≡ some a) × (p.orig_stdout ≡ some b) × (p.orig_stderr ≡ some c)
  pub apart : (3 ≤ a) × (a < b) × (b < c)
  pub free : (get start a ≡ none) × (get start b ≡ none) × (get start c ≡ none)
  pub copies :
      (get p.fds a ≡ get start 0) × (get p.fds b ≡ get start 1) × (get p.fds c ≡ get start 2)
  pub others : (j : ℕ) → 3 ≤ j → j ≢ a → j ≢ b → j ≢ c → get p.fds j ≡ get start j
  pub full : IsFull 6 p.fds

-- A change of the standard descriptors only.
pub Keeps-change :
    (start : Descriptors) (p : Image) (fs : Descriptors)
    → Keeps start p
    → IsFull 6 fs
    → ((j : ℕ) → 3 ≤ j → get fs j ≡ get p.fds j)
    → Keeps start (record p { fds = fs })
Keeps-change start p fs k full same = record {
  a = k.a;
  b = k.b;
  c = k.c;
  stored = k.stored;
  apart = k.apart;
  free = k.free;
  copies = (
    same k.a (omega (arith, k.apart)) ∙ k.copies.0,
    same k.b (omega (arith, k.apart)) ∙ k.copies.1,
    same k.c (omega (arith, k.apart)) ∙ k.copies.2,
  );
  others = λ j j≥3 x y z. same j j≥3 ∙ k.others j j≥3 x y z;
  full = full;
}

-- The image with three copies of open files.
abbrev pub keeping : Image → File → File → File → Image
keeping p f g h =
    let fs1 = open_file p.fds f in
    let fs2 = open_file fs1 g in
    record p {
      fds = open_file fs2 h;
      orig_stdin = some (lowest p.fds);
      orig_stdout = some (lowest fs1);
      orig_stderr = some (lowest fs2);
    }

module _ (p : Image) (f g h : File) (full : IsFull 3 p.fds) (e0 : get p.fds 0 ≡ some f)
    (e1 : get p.fds 1 ≡ some g) (e2 : get p.fds 2 ≡ some h) where
  pub store_standard-keeping : store_standard p ≡ keeping p f g h
  unfolding store_standard
  store_standard-keeping =
      let a≥3 = lowest-IsFull 3 p.fds full in
      let fs1 = open_file p.fds f in
      let b≥4 = lowest-IsFull 4 fs1 (open_file-IsFull 3 p.fds f full) in
      let fs2 = open_file fs1 g in
      let x1 : get fs1 1 ≡ some g = ground (arith, get-open_file p.fds f 1) in
      let x2 : get fs2 2 ≡ some h =
        ground (arith, get-open_file p.fds f 2, get-open_file fs1 g 2) in
      rw (dup-lowest p.fds 0 f e0, dup-lowest fs1 1 g x1, dup-lowest fs2 2 h x2) refl

  pub keeping-Keeps : Keeps p.fds (keeping p f g h)
  keeping-Keeps =
      let S = p.fds in
      let fs1 = open_file S f in
      let fs2 = open_file fs1 g in
      let fs3 = open_file fs2 h in
      let a = lowest S in
      let b = lowest fs1 in
      let c = lowest fs2 in
      let full1 = open_file-IsFull 3 S f full in
      let full2 = open_file-IsFull 4 fs1 g full1 in
      let a≥3 = lowest-IsFull 3 S full in
      let b≥4 = lowest-IsFull 4 fs1 full1 in
      let c≥5 = lowest-IsFull 5 fs2 full2 in
      let a<b = lowest-open_file S f in
      let b<c = lowest-open_file fs1 g in
      let g1 = get-open_file S f in
      let g2 = get-open_file fs1 g in
      let g3 = get-open_file fs2 h in
      record {
        a = a;
        b = b;
        c = c;
        stored = (refl, refl, refl);
        apart = (a≥3, a<b, b<c);
        free = (
          get-lowest S,
          ground (arith, get-lowest fs1, g1 b),
          ground (arith, get-lowest fs2, g2 c, g1 c),
        );
        copies =
            (ground (arith, g3 a, g2 a, g1 a), ground (arith, g3 b, g2 b), ground (arith, g3 c));
        others = λ j j≥3 x y z. ground (arith, g3 j, g2 j, g1 j);
        full = open_file-IsFull 5 fs2 h full2;
      }

pub is_open : (fs : Descriptors) (i : ℕ) → get fs i ≢ none → (f : File) × (get fs i ≡ some f)
is_open fs i h = elim (Option-cases (get fs i)) [ inl e ↦ absurd (h e) | inr x ↦ x ]

-- What the child makes of it: the standard descriptors as at the start, the copies gone.
pub spawn_child-Keeps :
    (start : Descriptors) (p : Image)
    → IsFull 3 start
    → Keeps start p
    → (j : ℕ) → get (spawn_child p).fds j ≡ get start j
unfolding spawn_child close
spawn_child-Keeps start p full k j =
    let (e0, e1, e2) = k.stored in
    let (ka, kb, kc) = k.copies in
    let (fa, fb, fc) = k.free in
    let (a≥3, a<b, b<c) = k.apart in
    let (f, ef) = is_open start 0 (full 0 (omega arith)) in
    let (g, eg) = is_open start 1 (full 1 (omega arith)) in
    let (h, eh) = is_open start 2 (full 2 (omega arith)) in
    let d1 = dup2 p.fds (some k.a) 0 in
    let d2 = dup2 d1 (some k.b) 1 in
    let d3 = dup2 d2 (some k.c) 2 in
    let g1 = λ (i : ℕ). get-dup2 p.fds k.a 0 i f (ka ∙ ef) in
    let here1 : get d1 k.b ≡ some g = ground (arith, g1 k.b) in
    let g2 = λ (i : ℕ). get-dup2 d1 k.b 1 i g here1 in
    let here2 : get d2 k.c ≡ some h = ground (arith, g2 k.c, g1 k.c) in
    let g3 = get-dup2 d2 k.c 2 j h here2 in
    let c1 = put d3 k.a none in
    let c2 = put c1 k.b none in
    rw (e0, e1, e2)
      (ground (
        arith,
        get-put c2 k.c j none,
        get-put c1 k.b j none,
        get-put d3 k.a j none,
        g3,
        g2 j,
        g1 j,
        ef,
        eg,
        eh,
        fa,
        fb,
        fc,
        k.others j,
      ))
