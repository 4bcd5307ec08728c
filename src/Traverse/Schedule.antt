-- ===== src/Traverse/Schedule.antt =====
-- librapidarchive/src/traverse.rs: the runs of a pool of tasks, in any order.
use mathlib.Core.List.{Permᴰ}
use mathlib.Core.List.Permᴰ
use mathlib.Core.Path.{subst, subst₂}
use mathlib.Core.Option.{some-injective}
use rapidtar.Prelude.{◌≡◌, refl, sym, ◌∙◌, some, List, [], ◌∷◌, ◌++◌, append_assoc}
use rapidtar.Tar.Path.{PathBuf}
use rapidtar.Fs.{FileMetadata}
use rapidtar.Traverse.{FileTree, Result, Task, Call, visit}

module _ {A : Type 0} where
  exchange_twice :
      (a b c d r : List A) → Permᴰ (a ++ (b ++ (c ++ (d ++ r)))) (c ++ (d ++ (a ++ (b ++ r))))
  exchange_twice a b c d r =
      let join : (x y z : List A) → x ++ (y ++ z) ≡ (x ++ y) ++ z =
        λ x y z. sym (append_assoc x y z) in
      rw
        (
          join a b (c ++ (d ++ r)),
          join c d r,
          join (a ++ b) (c ++ d) r,
          join a b r,
          join c d ((a ++ b) ++ r),
          join (c ++ d) (a ++ b) r,
        )
        (Permᴰ.append_right r (Permᴰ.append_comm (a ++ b) (c ++ d)))

module _ (fs : FileTree) (archive_header_fn : PathBuf → PathBuf → FileMetadata → Result) where
  -- The complete runs of a pool of tasks in which none panics, with the calls of `archive_header_fn` in
  -- their order. Any task may be the next; the tasks that it spawns join the pool.
  pub data Walk : List Task → List Call → Type 0 where
    finished : Walk [] []
    next :
        (t : Task) (rest spawned pool : List Task) (log : List Call)
        → Permᴰ (t ∷ rest) pool
        → (visit fs archive_header_fn t).spawned ≡ some spawned
        → Walk (spawned ++ rest) log
        → Walk pool ((visit fs archive_header_fn t).calls ++ log)

  -- The run of one thread, which goes into the depth first.
  pub data Sequential : List Task → List Call → Type 0 where
    empty : Sequential [] []
    task :
        (t : Task) (spawned ts : List Task) (below behind : List Call)
        → (visit fs archive_header_fn t).spawned ≡ some spawned
        → Sequential spawned below
        → Sequential ts behind
        → Sequential (t ∷ ts) ((visit fs archive_header_fn t).calls ++ (below ++ behind))

  pub Sequential-unique :
      (ts : List Task) (l k : List Call) → Sequential ts l → Sequential ts k → l ≡ k
  Sequential-unique [] _ _ empty empty = refl
  Sequential-unique (_ ∷ _) _ _ (task t s ts b1 h1 e1 d1 r1) (task _ s' _ b2 h2 e2 d2 r2) =
      let same : s' ≡ s = some-injective _ _ (sym e2 ∙ e1) in
      let below : b1 ≡ b2 = Sequential-unique s b1 b2 d1 (subst (λ x. Sequential x b2) same d2) in
      let behind : h1 ≡ h2 = Sequential-unique ts h1 h2 r1 r2 in rw (below, behind) refl

  Sequential-split :
      (a b : List Task) (l : List Call)
      → Sequential (a ++ b) l
      → (x : List Call) × (y : List Call) × Sequential a x × Sequential b y × (l ≡ x ++ y)
  Sequential-split [] b l d = ([], l, empty, d, refl)
  Sequential-split (_ ∷ a) b _ (task t s _ below behind e d r) =
      let (x, y, first, second, eq) = Sequential-split a b behind r in
      let calls : List Call = (visit fs archive_header_fn t).calls in
      (
        calls ++ (below ++ x),
        y,
        task t s a below x e d first,
        second,
        rw (eq, append_assoc calls (below ++ x) y, append_assoc below x y) refl,
      )

  -- The order of the tasks does not change which calls they make.
  Sequential-perm :
      (p q : List Task) (l : List Call)
      → Permᴰ p q
      → Sequential p l
      → (k : List Call) × Sequential q k × Permᴰ l k
  Sequential-perm _ _ l Permᴰ.nil d = (l, d, Permᴰ.refl l)
  Sequential-perm _ _ _ (Permᴰ.cons {l₁ = p} {l₂ = q} e perm) (task t s _ below behind sp d r) =
      let (k, later, moved) = Sequential-perm p q behind perm r in
      let calls : List Call = (visit fs archive_header_fn t).calls in
      subst (λ u. (m : List Call) × Sequential (u ∷ q) m × Permᴰ (calls ++ (below ++ behind)) m) e
        (
          calls ++ (below ++ k),
          task t s q below k sp d later,
          Permᴰ.append_left calls (Permᴰ.append_left below moved),
        )
  Sequential-perm _ _ _ (Permᴰ.swap e₁ e₂)
        (task t s _ below _ sp d (task u s' ts below' behind sp' d' r)) =
      let calls : List Call = (visit fs archive_header_fn t).calls in
      let calls' : List Call = (visit fs archive_header_fn u).calls in
      subst₂
        (λ x y.
          (m : List Call) × Sequential (y ∷ x ∷ ts) m
          × Permᴰ (calls ++ (below ++ (calls' ++ (below' ++ behind)))) m)
        e₁ e₂
        (
          calls' ++ (below' ++ (calls ++ (below ++ behind))),
          task u s' (t ∷ ts) below' (calls ++ (below ++ behind)) sp' d'
              (task t s ts below behind sp d r),
          exchange_twice calls below calls' below' behind,
        )
  Sequential-perm p q l (Permᴰ.trans {l₂ = m} perm perm') d =
      let (k, there, moved) = Sequential-perm p m l perm d in
      let (k', here, moved') = Sequential-perm m q k perm' there in
      (k', here, Permᴰ.trans moved moved')

  pub Walk-Sequential :
      (pool : List Task) (log : List Call)
      → Walk pool log
      → (l : List Call) × Sequential pool l × Permᴰ l log
  Walk-Sequential _ _ finished = ([], empty, Permᴰ.nil)
  Walk-Sequential _ _ (next t rest spawned pool log picked e run) =
      let (l, later, moved) = Walk-Sequential (spawned ++ rest) log run in
      let (below, behind, first, second, eq) = Sequential-split spawned rest l later in
      let calls : List Call = (visit fs archive_header_fn t).calls in
      let (k, whole, placed) =
        Sequential-perm (t ∷ rest) pool (calls ++ (below ++ behind)) picked
          (task t spawned rest below behind e first second) in
      (
        k,
        whole,
        Permᴰ.trans (Permᴰ.symm placed)
            (Permᴰ.append_left calls (subst (λ x. Permᴰ x log) eq moved)),
      )

  -- Every run makes the calls of the run of one thread.
  pub Walk-calls :
      (pool : List Task) (calls log : List Call)
      → Sequential pool calls
      → Walk pool log
      → Permᴰ calls log
  Walk-calls pool calls log one run =
      let (l, other, moved) = Walk-Sequential pool log run in
      subst (λ x. Permᴰ x log) (Sequential-unique pool l calls other one) moved

  pub one_call :
      (t : Task) (c : Call) (spawned ts : List Task) (below behind : List Call)
      → (visit fs archive_header_fn t).calls ≡ c ∷ []
      → (visit fs archive_header_fn t).spawned ≡ some spawned
      → Sequential spawned below
      → Sequential ts behind
      → Sequential (t ∷ ts) (c ∷ (below ++ behind))
  one_call t c spawned ts below behind calls e d r =
      subst (λ x. Sequential (t ∷ ts) (x ++ (below ++ behind))) calls
        (task t spawned ts below behind e d r)
