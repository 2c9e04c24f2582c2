-- ===== src/Client/Distributed/First.antt =====
-- The conversation with the manager (`distributedCompile` of Extensions/Client/client.cpp).
use buildpal.Prelude.{
  ℕ, suc, ◌^◌, ◌<◌, ◌≤◌, ◌≢◌, Option-cases, map, true, false, ◌≡◌, ◌⊎◌, inl, inr, ap, ◌∙◌, none,
  some, List, [], ◌∷◌, ◌++◌, arith, units, drop,
}
use buildpal.Client.Bytes.{to_byte_array}
use buildpal.Client.Message.{ok, get_message, message}
use buildpal.Client.Message.Roundtrip.{Fits, get_message-message}
use buildpal.Client.Environment.{get, remove}
use buildpal.Client.Requests.{Outcome, fallback, serve}
use buildpal.Client.Requests.Serve.{serve-exit, serve-answers}
use buildpal.Client.Distributed.{
  System, Arguments, connect, compile_env, or_else, first_parts, command_arguments, execute, locate,
  locate_all, converse, begin, pipe_name, distributed_compile, result, fallback_complete,
}

module _ (sys : System) (args : Arguments) where
  -- the pipe opens, the command line and the response files expand, and the first message, of the
  -- parts, is written
  pub record Begins (argv : List (List ℕ)) (program : List ℕ) (rest : List (List ℕ)) : Type 0 where
    pub connected : connect (sys.open_pipe (pipe_name sys args)) ≡ some true
    pub arguments : command_arguments sys args ≡ some argv
    pub expanded : sys.expand_response_files argv ≡ some (program ∷ rest)
    pub fits : Fits (first_parts sys args rest)
    pub written : sys.write (message (first_parts sys args rest)) ≡ true

  distributed_compile-serve :
      (argv rest : List (List ℕ)) (program : List ℕ) (fuel : ℕ) (sock : List ℕ)
      → Begins argv program rest
      → distributed_compile sys args fuel sock ≡ (
        (serve sys.word args.command_line
            (execute sys args)
            (locate_all sys args)
            sys.write
            fuel
            sock).0,
        message (first_parts sys args rest)
            ∷ (serve sys.word args.command_line
                (execute sys args)
                (locate_all sys args)
                sys.write
                fuel
                sock).1,
      )
  unfolding distributed_compile begin converse drop
  distributed_compile-serve argv rest program fuel sock b =
      ground (arith, b.connected, b.arguments, b.expanded, b.written)

  -- what the client writes on every way through the code is nothing, or begins with the first
  -- message
  converse-first :
      (argv replies : List (List ℕ)) (fuel : ℕ) (sock first : List ℕ)
      → (converse sys args argv fuel sock).1 ≡ first ∷ replies
      → first ≡ message (first_parts sys args (drop 1 argv))
  unfolding converse
  converse-first argv replies fuel sock first e = ground arith

  -- the arguments behind the program's name, as they are expanded
  abbrev pub Expanded : List (List ℕ) → Type 0
  Expanded rest =
      (argv : List (List ℕ)) × (program : List ℕ) × (command_arguments sys args ≡ some argv)
      × (sys.expand_response_files argv ≡ some (program ∷ rest))

  -- toolset, compiler, INCLUDE or an empty text, directory, and arguments
  abbrev pub told : List (List ℕ) → List (List ℕ)
  told arguments =
      args.toolset
      ∷ args.executable
      ∷ elim (get sys.process_env (remove args.env (units "VS_UNICODE_OUTPUT")) (units "INCLUDE")) [
        | none ↦ []
        | some directories ↦ directories
      ]
      ∷ elim args.current_path [ none ↦ sys.process_directory | some path ↦ path ]
      ∷ arguments

  first_parts-told : (rest : List (List ℕ)) → first_parts sys args rest ≡ told rest
  unfolding first_parts or_else compile_env
  first_parts-told rest = ground arith

  begin-first :
      (replies : List (List ℕ)) (fuel : ℕ) (sock first : List ℕ)
      → (begin sys args fuel sock).1 ≡ first ∷ replies
      → (rest : List (List ℕ)) × Expanded rest × (first ≡ message (told rest))
  unfolding begin drop
  begin-first replies fuel sock first e = elim (Option-cases (command_arguments sys args)) [
    | inl none_at_all ↦ absurd (ground (arith, none_at_all))
    | inr (argv, known) ↦ elim (Option-cases (sys.expand_response_files argv)) [
      | inl failed ↦ absurd (ground (arith, known, failed))
      | inr ([], expanded) ↦ absurd (ground (arith, known, expanded))
      | inr (program ∷ rest, expanded) ↦ (
        rest,
        (argv, program, known, expanded),
        converse-first (program ∷ rest) replies fuel sock first (ground (arith, known, expanded))
            ∙ ap message (first_parts-told rest),
      )
    ]
  ]

  -- If the client writes anything, then its first message is one that the manager reads back as the
  -- toolset, the compiler, the INCLUDE variable or an empty text, the directory, and the arguments
  -- without the program's name, as they are expanded, whatever follows it in the stream; provided
  -- that they fit the format and that `std::size_t` has 32 bits or more.
  pub distributed_compile-first :
      (replies : List (List ℕ)) (fuel : ℕ) (sock first behind : List ℕ)
      → 2 ^ 32 ≤ sys.word
      → ((rest : List (List ℕ)) → Expanded rest → Fits (told rest))
      → (distributed_compile sys args fuel sock).1 ≡ first ∷ replies
      → (rest : List (List ℕ)) × Expanded rest
        × (get_message sys.word (first ++ behind) ≡ ok (told rest) behind)
  unfolding distributed_compile
  distributed_compile-first replies fuel sock first behind wide fits e =
      elim (Option-cases (connect (sys.open_pipe (pipe_name sys args)))) [
        | inl waits ↦ absurd (ground (arith, waits))
        | inr (false, closed) ↦ absurd (ground (arith, closed))
        | inr (true, opened) ↦
            let (rest, expanded, same) =
              begin-first replies fuel sock first (ground (arith, opened)) in
            (
              rest,
              expanded,
              ap (λ (t : List ℕ). get_message sys.word (t ++ behind)) same
                  ∙ get_message-message sys.word (told rest) behind wide (fits rest expanded),
            )
      ]

  -- If the manager answers the first message with EXIT, the client returns the exit code that the
  -- manager sent.
  pub distributed_compile-exit :
      (argv rest : List (List ℕ)) (program : List ℕ) (fuel code : ℕ) (out err behind : List ℕ)
      → 2 ^ 32 ≤ sys.word
      → Begins argv program rest
      → code < 2 ^ 32
      → Fits (units "EXIT" ∷ to_byte_array 4 code ∷ out ∷ err ∷ [])
      → result sys args
          (distributed_compile sys args
            (suc fuel)
            (message (units "EXIT" ∷ to_byte_array 4 code ∷ out ∷ err ∷ []) ++ behind)).0
        ≡ some code
  unfolding result
  distributed_compile-exit argv rest program fuel code out err behind wide b small fits =
      ap (λ (p : Outcome × List (List ℕ)). result sys args p.0)
        (distributed_compile-serve argv rest program (suc fuel) _ b)
      ∙ ap (λ (p : Outcome × List (List ℕ)). result sys args p.0)
          (serve-exit sys.word args.command_line (execute sys args) (locate_all sys args) sys.write
            fuel code out err behind wide small fits)

  -- A LOCATE_FILES message is answered with a message that its reader takes apart into what was
  -- found for each file, in order; then the loop serves the rest of the stream. Provided that the
  -- compiler is given with its directory, and that the characters of the answers stay where they are
  -- while the vector grows by them: else what is sent is undefined. All parts must fit the format,
  -- and `std::size_t` have 32 bits or more.
  pub serve-locate_files :
      (fuel : ℕ) (file : List ℕ) (files : List (List ℕ)) (rest behind : List ℕ)
      → 2 ^ 32 ≤ sys.word
      → sys.directory_of args.executable ≢ []
      → sys.stays (map (locate sys args) (file ∷ files)) ≡ true
      → Fits (units "LOCATE_FILES" ∷ file ∷ files)
      → Fits (map (locate sys args) (file ∷ files))
      → sys.write (message (map (locate sys args) (file ∷ files))) ≡ true
      → (let later =
            serve sys.word args.command_line
              (execute sys args)
              (locate_all sys args)
              sys.write
              fuel
              rest in
          serve sys.word args.command_line
            (execute sys args)
            (locate_all sys args)
            sys.write
            (suc fuel)
            (message (units "LOCATE_FILES" ∷ file ∷ files) ++ rest)
          ≡ (later.0, message (map (locate sys args) (file ∷ files)) ∷ later.1))
        × (get_message sys.word (message (map (locate sys args) (file ∷ files)) ++ behind)
            ≡ ok (map (locate sys args) (file ∷ files)) behind)
  serve-locate_files fuel file files rest behind wide placed stays fits answers written = (
    serve-answers sys.word args.command_line (execute sys args) (locate_all sys args) sys.write fuel
        file files (map (locate sys args) (file ∷ files)) rest wide fits
        (unfold locate_all in ground (arith, placed, stays)) written,
    get_message-message sys.word (map (locate sys args) (file ∷ files)) behind wide answers,
  )

  -- If the pipe does not open, or opens and the response files do not expand, then nothing is
  -- written and nothing is read, and the result is that of the caller's fallback function, or -1
  -- where there is none.
  pub distributed_compile-fallback :
      (argv : List (List ℕ)) (fuel : ℕ) (sock : List ℕ)
      → (connect (sys.open_pipe (pipe_name sys args)) ≡ some false)
        ⊎ ((connect (sys.open_pipe (pipe_name sys args)) ≡ some true)
            × ((command_arguments sys args ≡ some argv) × (sys.expand_response_files argv ≡ none)))
      → (distributed_compile sys args fuel sock ≡ (fallback, []))
        × (result sys args (distributed_compile sys args fuel sock).0
            ≡ some (fallback_complete args.fallback_function))
  unfolding result distributed_compile begin
  distributed_compile-fallback argv fuel sock (inl closed) =
      (ground (arith, closed), ground (arith, closed))
  distributed_compile-fallback argv fuel sock (inr (opened, (arguments, failed))) =
      (ground (arith, opened, arguments, failed), ground (arith, opened, arguments, failed))
