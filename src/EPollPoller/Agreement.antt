-- ===== src/EPollPoller/Agreement.antt =====
-- muduo/net/EPollPoller.cpp: the map, the indices and the kernel agree, also where one channel changes.
use mathlib.Core.Bool.{false≢true}
use mathlib.Core.Option.{some-injective}
use learn_muduo.Prelude.{
  ℕ, ◌≡◌, ◌≢◌, ◌⊎◌, ◌∙◌, refl, sym, ap, subst, inl, inr, List, [], ◌∷◌, Option, none, some, ◌==◌,
  ==_iff, ne→==, eq→==, if◌then◌else◌, Bool-cases, ◌>>=◌,
}
use learn_muduo.EPollPoller.{
  EPollPoller, put, k_new, k_added, k_deleted, Ctl, adds, modifies, deletes, is_found,
}

-- What an epoll instance watches: the events for a file descriptor.
abbrev pub Interest : Type 0
Interest = ℕ → Option ℕ

-- `epoll_ctl` as it is documented: it adds what is not watched, and modifies and deletes what is.
abbrev pub epoll_ctl : Interest → Ctl → Option Interest
epoll_ctl w (adds fd events) = if is_found (w fd) then none else some (put w fd (some events))
epoll_ctl w (modifies fd events) = if is_found (w fd) then some (put w fd (some events)) else none
epoll_ctl w (deletes fd) = if is_found (w fd) then some (put w fd none) else none

abbrev pub epoll_ctls : Interest → List Ctl → Option Interest
epoll_ctls w [] = some w
epoll_ctls w (c ∷ cs) = do w' ← epoll_ctl w c; epoll_ctls w' cs

-- What the index of a channel says of its file descriptor's place in the map and in the kernel.
pub data Placed (p : ℕ) : Option ℕ → Option ℕ → Option ℕ → Type 0 where
  fresh : {index entry watched : Option ℕ} → index ≡ k_new → Placed p index entry watched
  watched_as :
      {index entry watched : Option ℕ} (events : ℕ)
      → index ≡ k_added
      → entry ≡ some p
      → watched ≡ some events
      → Placed p index entry watched
  set_aside :
      {index entry watched : Option ℕ}
      → index ≡ k_deleted
      → entry ≡ some p
      → watched ≡ none
      → Placed p index entry watched

-- The map, the indices and the kernel agree.
pub record Agrees (s : EPollPoller) (w : Interest) : Type 0 where
  pub entry :
      (fd p : ℕ) → s.channels fd ≡ some p → ((s.heap p).fd ≡ fd) × ((s.heap p).index ≢ k_new)
  pub place : (p : ℕ) → Placed p (s.heap p).index (s.channels (s.heap p).fd) (w (s.heap p).fd)
  pub free : (fd : ℕ) → s.channels fd ≡ none → w fd ≡ none

-- A method touched nothing but the channel at `p` and its file descriptor.
pub record Touches (s s' : EPollPoller) (w w' : Interest) (p : ℕ) : Type 0 where
  pub others : (q : ℕ) → q ≢ p → s'.heap q ≡ s.heap q
  pub same_fd : (s'.heap p).fd ≡ (s.heap p).fd
  pub entries : (fd : ℕ) → fd ≢ (s.heap p).fd → s'.channels fd ≡ s.channels fd
  pub watched : (fd : ℕ) → fd ≢ (s.heap p).fd → w' fd ≡ w fd

-- Before: the map has nothing else for the file descriptor.
abbrev Own : EPollPoller → ℕ → Type 0
Own s p = (s.channels (s.heap p).fd ≡ none) ⊎ (s.channels (s.heap p).fd ≡ some p)

-- After: the channel, its entry and the kernel agree.
pub data Settled (p : ℕ) (index entry watched : Option ℕ) : Type 0 where
  gone : index ≡ k_new → entry ≡ none → watched ≡ none → Settled p index entry watched
  kept :
      index ≢ k_new → entry ≡ some p → Placed p index entry watched → Settled p index entry watched

eq_or_ne : (a b : ℕ) → (a ≡ b) ⊎ (a ≢ b)
eq_or_ne a b = elim (Bool-cases (a == b)) [
  | inl e ↦ inl ((==_iff a b).0 e)
  | inr e ↦ inr (λ h. false≢true (sym e ∙ eq→== a b h))
]

-- Another channel's file descriptor is another one.
other_fd :
    (s : EPollPoller) (p q : ℕ)
    → Own s p
    → q ≢ p
    → s.channels (s.heap q).fd ≡ some q
    → (s.heap q).fd ≢ (s.heap p).fd
other_fd s p q (inl free) ne e h =
    let bad : none ≡ some q = sym free ∙ sym (ap s.channels h) ∙ e in cc
other_fd s p q (inr own) ne e h = ne (some-injective q p (sym e ∙ ap s.channels h ∙ own))

pub touched-Agrees :
    (s s' : EPollPoller) (w w' : Interest) (p : ℕ)
    → Agrees s w
    → Own s p
    → Touches s s' w w' p
    → Settled p (s'.heap p).index (s'.channels (s.heap p).fd) (w' (s.heap p).fd)
    → Agrees s' w'
touched-Agrees s s' w w' p a own t settled = record {
  entry = entries;
  place = places;
  free = frees;
}
  where
    entries :
        (fd q : ℕ) → s'.channels fd ≡ some q → ((s'.heap q).fd ≡ fd) × ((s'.heap q).index ≢ k_new)
    entries fd q e = elim (eq_or_ne fd (s.heap p).fd) [
      | inl same ↦ entry_of settled (subst (λ i. s'.channels i ≡ some q) same e) same
      | inr other ↦
          let (fd_same, known) = a.entry fd q (sym (t.entries fd other) ∙ e) in
          let kept = t.others q (λ h. other (sym fd_same ∙ ap (λ i. (s.heap i).fd) h)) in
          (ap (λ c. c.fd) kept ∙ fd_same, λ h. known (sym (ap (λ c. c.index) kept) ∙ h))
    ]
      where
        entry_of :
            Settled p (s'.heap p).index (s'.channels (s.heap p).fd) (w' (s.heap p).fd)
            → s'.channels (s.heap p).fd ≡ some q
            → fd ≡ (s.heap p).fd
            → ((s'.heap q).fd ≡ fd) × ((s'.heap q).index ≢ k_new)
        entry_of (gone i en wa) e same = absurd (cc)
        entry_of (kept i en pl) e same =
            subst (λ r. ((s'.heap r).fd ≡ fd) × ((s'.heap r).index ≢ k_new))
              (some-injective p q (sym en ∙ e)) (t.same_fd ∙ sym same, i)

    places : (q : ℕ) → Placed q (s'.heap q).index (s'.channels (s'.heap q).fd) (w' (s'.heap q).fd)
    places q = elim (eq_or_ne q p) [
      | inl same ↦
          subst (λ r. Placed r (s'.heap r).index (s'.channels (s'.heap r).fd) (w' (s'.heap r).fd))
            (sym same)
            (subst (λ fd. Placed p (s'.heap p).index (s'.channels fd) (w' fd)) (sym t.same_fd)
              (placed_of settled))
      | inr other ↦
          subst (λ c. Placed q c.index (s'.channels c.fd) (w' c.fd)) (sym (t.others q other))
            (as_before other (a.place q))
    ]
      where
        placed_of :
            Settled p (s'.heap p).index (s'.channels (s.heap p).fd) (w' (s.heap p).fd)
            → Placed p (s'.heap p).index (s'.channels (s.heap p).fd) (w' (s.heap p).fd)
        placed_of (gone i en wa) = fresh i
        placed_of (kept i en pl) = pl

        as_before :
            q ≢ p
            → Placed q (s.heap q).index (s.channels (s.heap q).fd) (w (s.heap q).fd)
            → Placed q (s.heap q).index (s'.channels (s.heap q).fd) (w' (s.heap q).fd)
        as_before ne (fresh i) = fresh i
        as_before ne (watched_as ev i en wa) =
            let other = other_fd s p q own ne en in
            watched_as ev i (t.entries (s.heap q).fd other ∙ en)
              (t.watched (s.heap q).fd other ∙ wa)
        as_before ne (set_aside i en wa) =
            let other = other_fd s p q own ne en in
            set_aside i (t.entries (s.heap q).fd other ∙ en) (t.watched (s.heap q).fd other ∙ wa)

    frees : (fd : ℕ) → s'.channels fd ≡ none → w' fd ≡ none
    frees fd e = elim (eq_or_ne fd (s.heap p).fd) [
      | inl same ↦
          subst (λ i. w' i ≡ none) (sym same)
            (free_of settled (subst (λ i. s'.channels i ≡ none) same e))
      | inr other ↦ t.watched fd other ∙ a.free fd (sym (t.entries fd other) ∙ e)
    ]
      where
        free_of :
            Settled p (s'.heap p).index (s'.channels (s.heap p).fd) (w' (s.heap p).fd)
            → s'.channels (s.heap p).fd ≡ none
            → w' (s.heap p).fd ≡ none
        free_of (gone i en wa) e = wa
        free_of (kept i en pl) e = absurd (cc)

pub put-same : {A : Type 0} → (f : ℕ → A) (k : ℕ) (v : A) → put f k v k ≡ v
put-same f k v = rw (eq→== k k refl) refl

pub put-other : {A : Type 0} → (f : ℕ → A) (k i : ℕ) (v : A) → i ≢ k → put f k v i ≡ f i
put-other f k i v h = rw (ne→== i k h) refl
