-- ===== src/Lib.antt =====
-- Verification of the native part of Termux:X11, app/src/main/cpp/lorie: an X server for Android
-- (the device-dependent part of Xorg) and, in another process, the activity that shows its picture.
--
-- The parts and how they meet. cmdentrypoint.c starts the server and holds the socket to the activity
-- (`conn_fd`); it reads the activity's events and writes events back. clipboard.c keeps the clipboard
-- of X11 and of Android the same: it takes the X selections, asks their owners for text, answers the
-- requests of clients, and speaks to Android through cmdentrypoint.c. buffer.c and buffer.h make the
-- pixel buffers that both processes share. InitOutput.c, InitInput.c and InputXKB.c are the screen,
-- the devices and the keyboard; renderer.c and activity.c are the other process.
--
-- Files:
--   Base, Base/*            names of the libraries, Boolean tests, lists, the outcome of a run, words.
--   Connection              conn_fd and the writers of cmdentrypoint.c: lorieSendClipboardData,
--                           lorieRequestClipboard, lorieSendSharedServerState, DDXNotifyFocusChanged.
--   Registry                the buffers that the activity has been told of (cmdentrypoint.c):
--                           lorieRegisterBuffer, lorieUnregisterBuffer, addFd, and the part of
--                           handleLorieEvents for a lost connection.
--   Touch                   handleTouchEvent of cmdentrypoint.c.
--   Stylus                  EVENT_STYLUS in handleLorieEvents of cmdentrypoint.c: device and buttons.
--   Input                   EVENT_MOUSE, EVENT_KEY and EVENT_UNICODE in handleLorieEvents.
--   Wire                    the packets (lorieEvent of lorie.h) and the loop that reads them at both ends.
--   Wire/Server             the switch of handleLorieEvents of cmdentrypoint.c, and lorieSetStylusEnabled
--                           of InitInput.c: what is called, in order, and the axes that are set.
--   Wire/Activity           the functions of activity.c that Java calls: setClipboardSyncEnabled,
--                           sendClipboardAnnounce, sendClipboardEvent, sendWindowChange,
--                           sendMouseEvent, sendTouchEvent, sendStylusEvent, requestStylusEnabled,
--                           sendKeyEvent, sendTextEvent.
--   Wire/Receive            xcallback and connect_ of activity.c.
--   Wire/Connect            requestConnection of activity.c.
--   Wire/Framing, Delivery  the loop on whole messages, and a reader that is called again and again.
--   Wire/Messages, History, Typed, Stale, and the children of Wire/Receive
--                           from the calls at one end to the calls at the other.
--   Fence                   xshmfence.c, with both implementations of a fence as parameters.
--   Mutex                   lorie_mutex_lock of lorie.h.
--   Keyboard/Xkb            what InputXKB.c reads of the X server's description of the keyboard.
--   Keyboard/Translate      XkbTranslateKeyCode, XkbKeyActionPtr, XkbKeyEffectiveGroup of InputXKB.c.
--   Keyboard/Lookup         lorieKeysymToKeycode and lorieGetLevelThreeMask.
--   Keyboard/Modifiers      loriePressShift, lorieReleaseShift, loriePressLevelThree,
--                           lorieReleaseLevelThree, lorieIsAffectedByNumLock.
--   Keyboard/Added          saveAddedKeysym, vncOnKeyUsed, getReusableKeycode, lorieAddKeysym.
--   Keyboard/Event          lorieKeysymKeyboardEvent: the events that are queued for a keysym.
--   Clipboard/Text          the conversions of clipboard.c: lorieConvertLF, lorieLatin1ToUTF8,
--                           lorieCheckUTF8, lorieUtf8ToUCS4, lorieUtf8ToLatin1. A buffer is the list of
--                           the bytes that can be read; a read outside it is the outcome `fault`.
--                           Its children hold the independent UTF-8 encoder, and the proofs.
--   Clipboard/State         the static variables of clipboard.c, and what the code uses of the X
--                           server: atoms, selections, properties, events and allocation.
--   Clipboard/Receive       from X11 to Android: lorieSelectionCallback, lorieSelectionRequest,
--                           lorieHandleSelection, lorieProcSendEvent.
--   Clipboard/Serve         from Android to X11: lorieConvertSelection, lorieProcConvertSelection,
--                           lorieOwnSelection, lorieHandleClipboardAnnounce, lorieHandleClipboardData.
--   Clipboard/Steps         the calls that reach clipboard.c as steps, and histories of them.
--   Buffer/Os               the calls of the operating system that buffer.c makes; each kind of
--                           resource is the list of the handles in use.
--   Buffer/Region           alignToPage and LorieBuffer_createRegion.
--   Buffer/Alloc            allocate, LorieBuffer_allocate, the two wrap functions, __LorieBuffer_free.
--   Buffer/Convert          LorieBuffer_convert.
--   Buffer/Refcount         LorieBuffer_acquire and LorieBuffer_release.
--   Buffer/Lock             LorieBuffer_lock and LorieBuffer_unlock.
--   Buffer/Transfer         LorieBuffer_sendHandleToUnixSocket, LorieBuffer_recvHandleFromUnixSocket.
--   Screen/Cursor           lorieConvertCursor, lorieSetCursor, lorieMoveCursor of InitOutput.c.
--   Screen/Pixmap           loriePrepareAccess, lorieFinishAccess, lorieModifyPixmapHeader and the locks of
--                           lorieSetWindowPixmap of InitOutput.c, on those of Buffer/Lock.
--   Screen/Pixmap/Life      lorieCreatePixmap and lorieExaDestroyPixmap of InitOutput.c.
--   Screen/Flip             loriePresentFlip of InitOutput.c.
--   Screen/Import           loriePixmapFromFds of InitOutput.c.
--   Screen/Configure        lorieConfigureNotify of InitOutput.c.
--   Screen/Vblank           the vblank queue of the Present extension and lorieRedraw of InitOutput.c.
--   Renderer/Buffers        the lists of buffers of renderer.c: rendererAddBuffer, rendererRemoveBuffer,
--                           rendererRemoveAllBuffers, and the loops over them in rendererThread.
--   Renderer/Thread         rendererSetSharedState, rendererSetWindow, rendererRefreshContext,
--                           rendererShouldWait, rendererRedrawLocked and rendererThread of renderer.c. The
--                           calls of other threads come between its rounds.
--   Registry/Ids, Told, Touch/Order, Buffer/Leaks, Buffer/Wrap, and the children of Clipboard/Receive,
--   Clipboard/Serve, Clipboard/Steps, and of the parts of Keyboard, Screen, Renderer and Input
--                           the proofs on these parts.
--   Clipboard/Text/Examples, Clipboard/Examples, Buffer/Examples, Registry/Examples,
--   Touch/Examples, Stylus/Examples, Mutex/Examples, Keyboard/Examples, Screen/Examples,
--   Renderer/Examples, Input/Examples, Wire/Sample, Wire/Examples,
--   Fence/Examples
--                           runs and theorems at concrete inputs.
--
-- Conventions. A pointer or descriptor is an `Option`, with `none` for NULL or a negative number; a
-- null buffer is `none` where the code tests for it, and the other operations are on buffers that
-- are there. A client of the X server is its number. Widths and heights are native numbers, with 0 for those that are not positive, and
-- their products are those that an int holds. A socket is the bytes that were written and not yet
-- read, all of which are there to read; what carries a descriptor counts as one byte. The refcount
-- wraps at 16 bits, the format of a hardware buffer at 8, the identifiers at 64, the counts in packets at 32, and subtraction of sizes at
-- 64. Masks of modifiers are 32-bit words; keys are bytes, and 0 is no key.
--
-- Loops. The loops over text recur on fuel, which is the size of the buffer and of the slack behind
-- it: each round reads at least one byte. The loop of lorieHandleClipboardData has one round for each
-- waiting request and one to see the end. The loops over keys have one round for each key from the
-- least to the greatest, or for each of the 256 entries of pressedKeys. The loop of a reader of packets
-- has one round for each byte that is there and one more: each round takes a union. The loop of
-- sendTextEvent has a round for each byte of the text.
--
-- What the code relies on outside of the repository is a parameter: the X server (the lookup of
-- selections and of windows, the access hooks, the properties, which atoms are valid, whether an
-- allocation succeeds) in Clipboard/State, its touches and floating point in Touch, its description of
-- the keyboard in Keyboard/Xkb, the operating system in Buffer/Os, the layout of the union, mbrtowc and
-- the table of key codes in Wire.
--
-- Not modelled: the queue of work of the X server, through which some of the calls of the reader go,
-- the rest of the screen driver, the input drivers, the processing of queued key events, the rest of
-- the renderer (GL, viewport, zoom) and of the activity, the attachment of buffers to GL and the
-- messages that carry descriptors, a client that is gone while its request for the clipboard waits,
-- a flip that `present_event_notify` makes while the vblanks are told, the clocks of the mutex, the content of pixmaps, the start-up, log lines, the generated
-- table of GLX configurations, the copy of libandroid-shmem, and the Java part.
mod Base
pub mod Connection
pub mod Clipboard
pub mod Buffer
pub mod Registry
pub mod Touch
pub mod Stylus
pub mod Mutex
pub mod Keyboard
pub mod Screen
pub mod Renderer
pub mod Input
pub mod Wire
pub mod Fence
