-- ===== src/Lib.antt =====
-- Cring: coroutines on io_uring in C, and the scripts of its documentation's pages in
-- JavaScript.
--
-- The program's parts and the files that model them. Paths are from the repository's root.
--
-- Prelude.antt passes on the shared names. Prelude/Tests.antt has Boolean tests, Prelude/Lists.antt
-- arrays as lists, Prelude/Bits.antt lemmas on the binary digits of words, Prelude/Int.antt signed
-- numbers.
--
-- Align.antt is lib/Common.h: align32pow2 and align64pow2, on numbers that wrap around at 2 ^ 32 and 2
-- ^ 64. Align/Power.antt has their laws.
--
-- IoContext.antt is lib/IOContext.h and src/IOContext.c, a pool of tokens in front of a ring.
--   - IoContext/Uring.antt: io_uring, which is not part of the repository. It is the parameter `Uring`
--     of what calls it; `UringLaws` states what its documentation promises of the entries in flight.
--     IoContext/Simulated.antt is a concrete ring with these laws.
--   - IoContext/Token.antt: `struct Token` and `struct IOContext`. A token's address is its index in
--     the block that init_io_context allocates; `available_tokens` is the table, `tail` its top.
--   - IoContext/Pool.antt: get_token and release_token. IoContext/Request.antt: request_wait,
--     request_accept, request_read, request_write. IoContext/Process.antt: process, a function of the
--     context and of the caller's state, which callbacks change. IoContext/Lifetime.antt:
--     init_io_context and free_io_context.
--   - IoContext/Balance.antt: the invariant that each token is in the pool or out of it, once, and how
--     the pool keeps it. Abstract.antt and Refines.antt beside it have the pool as a bag of tokens and
--     how the table stands for it. Requests.antt, Batch.antt, Answer.antt, Callbacks.antt and
--     Ownership.antt are on the requests, on a batch of completions, on what process answers, on what
--     the callbacks keep, and on the beginning and the end of a context.
--
-- Executor.antt is lib/Executor.h and src/Executor.c, which run tasks on stacks of their own.
--   - Executor/Frame.antt: `struct Frame` and `struct Executor`. A context is named by the place in
--     the source at which it was filled.
--   - Executor/Schedule.antt: move_to_next_ready_frame, suspend_current_frame,
--     swap_current_frame_with_last_frame and manage_async_finish. A switch of contexts is the executor
--     behind it with the frame that is resumed.
--   - Executor/Async.antt: read_fn, write_fn, accept_fn, wait_fn, async_wait, async_accept,
--     async_read, async_write and async_exec. Executor/Setup.antt: init_executor and free_executor.
--   - Executor/Run.antt: run, cut at its switch, and the program as a relation of steps: the loop, and
--     tasks which spawn tasks, make asynchronous calls and end in whatever order they like.
--   - Executor/Cycle.antt: the search for a ready frame. Executor/Turn.antt: how far one turn goes.
--     Executor/Fair.antt: the turns until a ready frame runs, while others are woken.
--     Executor/Invariant.antt: the invariant of a state and how each step keeps it, with the parts of a
--     step in the modules below it.
--     Executor/Lifecycle.antt: what follows for the program. Executor/Waiting.antt: from the request
--     of an asynchronous call to what the call returns.
--
-- DocSearch.antt is docs/html/search/search.js.
--   - DocSearch/Text.antt: strings as lists of UTF-16 code units. DocSearch/Id.antt: convertToId.
--   - DocSearch/Rows.antt: SearchResults.Search. DocSearch/Keys.antt: ProcessKeys.
--   - DocSearch/Page.antt: the results page as a tree of elements with addresses, FindChildElement and
--     Toggle. DocSearch/Nav.antt: NavNext, NavPrev, Nav and NavChild. DocSearch/NavVisible.antt: where
--     NavNext and NavPrev stop. DocSearch/Drawn.antt: what FindChildElement finds in a row.
--   - DocSearch/Create.antt: createResults, as what it draws from `searchData`.
--     DocSearch/CreateLinks.antt: the numbers in its links. DocSearch/CreateSearch.antt: the search on
--     it.
--   - DocSearch/Box/State.antt: the state of a SearchBox, with its elements and pending timers.
--     DocSearch/Box/Display.antt: what opens and closes its windows, and its list of filters.
--     DocSearch/Box/Search.antt: SearchBox.Search. DocSearch/Box/Events.antt: its handlers of keys and
--     of the filter, what a timer runs, and init_search. Filter.antt, Index.antt and Reset.antt beside
--     them are on the list of filters, on the page that Search opens, and on what Escape leaves.
--     Timers.antt has the invariant of the timers, Typing.antt what a key in the field does to them,
--     and Life.antt all events in whatever order they come, as a relation of steps.
--   - DocSearch/Data.antt: docs/html/search/searchdata.js, and the names of the pages that are in
--     docs/html/search. DocSearch/Files.antt: the pages that Search opens with these tables.
--     The modules below DocSearch/Data.antt have the tables of results of docs/html/search, by filter,
--     and Tables.antt lists them. DocSearch/Found.antt tests every row of them, and
--     DocSearch/Shown.antt follows a name from the search field to its row.
--
-- DocPages.antt is docs/html/dynsections.js.
--   - DocPages/Query.antt: jQuery, which is another project's. It is the parameter `Query` of what calls
--     it; `QueryLaws` states what its documentation promises: a change is read back at its element and
--     nowhere else, and moves no element. DocPages/Page.antt is a concrete page with these laws.
--   - DocPages/Sections.antt: toggleVisibility, toggleInherit and updateStripes.
--     DocPages/Folder.antt: toggleLevel and toggleFolder.
--   - DocPages/Changes.antt and Moves.antt: what changes of selections leave. Stripes.antt and
--     Striped.antt beside them are on the stripes, Level.antt on toggleLevel, Fold.antt and Refold.antt
--     on toggleFolder, Section.antt and Click.antt on toggleVisibility and toggleInherit.
--
-- DocMenu.antt is docs/html/menu.js and docs/html/menudata.js.
--   - DocMenu/Tree.antt: makeTree and initMenu, which gives the calls of jQuery that it makes.
--     DocMenu/Data.antt: the menu of menudata.js. DocMenu/Html.antt reads the tags of a text and says
--     whether they are nested; Tags.antt, Links.antt and Nest.antt beside it are on those of the menu.
--
-- Tests.antt runs the definitions on concrete inputs, and applies the theorems to them.
--
-- Interaction: the executor is a client of the IO context, hands it the current frame as the
-- callback's data, and calls process in run; the callbacks write the frames' memory. The results page
-- calls the search box by CloseResultsWindow, the search box sends the page to the results' frame,
-- with the text in the location, where the page reads it. The scripts of the pages meet only in the
-- document, by jQuery.
--
-- Fuel: move_to_next_ready_frame is given as many rounds as there are scheduled frames, which is
-- enough if one is ready. The loops over the results page are given their fuel by the caller, and a
-- result says when it has been used up; nav_next and nav_prev need one round for each hidden result
-- and one more.
--
-- Not modelled: printing of errors, the memory of stacks and buffers, and the kernel. An allocation
-- succeeds or fails as an argument says. Where the source reads through NULL or through freed memory,
-- which free_io_context and free_executor can do behind an initialisation that failed, nothing is said
-- of what happens. execute runs a function of the task that is arbitrary. In the
-- documentation: jquery.js is another project's; `:visible` is a field of an element, which stands for
-- its own display, its ancestors being shown.
pub mod Prelude
pub mod Align
pub mod IoContext
pub mod Executor
pub mod DocSearch
pub mod DocPages
pub mod DocMenu
mod Tests
