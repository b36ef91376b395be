-- ===== src/Reloading.antt =====
-- What src/state/hostsStore.ts and src/state/snippetsStore.ts have in common: a copy of the backend's
-- records, fetched anew after every change by loads that are numbered and may overlap.
pub mod Settled
use connect_hub.Base.{ℕ, suc, ◌≡◌, ◌≢◌}

-- A store `S` that keeps a copy of the records `D`, and how it loads them: the number of the load
-- begun last, the start of a load with the number it gets, and its rest, with the records fetched.
pub record Loading (S D : Type 0) : Type 0 where
  pub shown : S → D
  pub newest : S → ℕ
  pub begin : S → S × ℕ
  pub finish : S → ℕ → D → S

-- Every load is numbered anew, and the records fetched by any but the newest are not taken.
pub record IsGuarded {S D : Type 0} (l : Loading S D) : Type 0 where
  pub begin_newest : (s : S) → l.newest (l.begin s).0 ≡ suc (l.newest s)
  pub begin_number : (s : S) → (l.begin s).1 ≡ suc (l.newest s)
  pub finish_newest : (s : S) (n : ℕ) (d : D) → l.newest (l.finish s n d) ≡ l.newest s
  pub finish_taken : (s : S) (d : D) → l.shown (l.finish s (l.newest s) d) ≡ d
  pub finish_dropped :
      (s : S) (n : ℕ) (d : D) → n ≢ l.newest s → l.shown (l.finish s n d) ≡ l.shown s
