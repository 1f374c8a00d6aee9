-- ===== src/Lib.antt =====
-- The ReactOS Deutschland IRC system: a small IRC server (src/*.cpp) with accounts, channels for
-- members, and three kinds of virtual clients, NickServ, LogBot and VoteBot.
--
-- The program runs on one thread, by the handlers of a boost::asio io_service; as a Windows
-- service it has a second one for the controls. A client is an object of a class below CClient, a
-- network client or a virtual one. The server keeps channels by lowercased name, clients by
-- lowercased nickname and the set of connections; a channel has its members and a client the
-- channels that it has joined. A network client reads bytes, finds messages, and calls a handler
-- of the server for each one; the handlers call virtual functions of other clients, by which
-- messages reach a send queue or a virtual client, and a virtual client calls the server in turn.
--
-- The model. A CClient pointer is a number and a CChannel pointer the key of the channel.
-- State.antt has the objects; Server is the whole state, and its part Core is what the handlers
-- read of CIRCServer and CClient. An operation is a function of the state, named after the
-- function of the source. The virtual functions that the server calls on virtual clients are the
-- record Virtual, a parameter of the handlers; Bots.antt instantiates it with the three classes,
-- and since their calls can nest, with a number for the depth. A state in which the source has
-- undefined behaviour or fails an assertion sets the field undefined and goes on.
--
-- Which file is about which code. Reply.antt: src/irc_constants.h and the numeric replies of
-- src/CClient.cpp. Send.antt: the virtual functions of src/CClient.h as src/CNetworkClient.cpp
-- implements them, src/CChannel.cpp, and the setters of CNetworkClient and CClient. Outbox.antt:
-- the send queue, SendIRCMessage, _ProcessSendQueue, _HandleSend. Framing.antt: _HandleNewData.
-- Message.antt: _ReceiveMessage, up to the choice of the handler. NetworkClient.antt: the table of
-- handlers, the timers, and the handshake of src/CSSLNetworkClient.cpp. Server/Connection.antt:
-- _HandleNewConnection, DisconnectNetworkClient, _WelcomeClient, MOTD, Shutdown of
-- src/CIRCServer.cpp. Server/Rooms.antt: JOIN, PART, NAMES, TOPIC. Server/Users.antt: NICK, USER,
-- QUIT, PING, PONG, INFO, VERSION. Server/Talk.antt: PRIVMSG, NS. NickServ.antt:
-- src/CNickServ.cpp. Relay.antt and LogBot.antt: src/CLogBot.cpp. VoteBot.antt and its children:
-- src/CVoteBot.cpp. Bots.antt: src/CVirtualClient.cpp and AddVirtualClient. Startup.antt and its
-- children: src/exceptions.h, src/CConfiguration.cpp, src/CVoteBotManager.cpp, the Init functions
-- of src/CIRCServer.cpp, src/CLogBot.cpp and src/CVoteBot.cpp, src/main.cpp, src/run_console.cpp
-- and src/run_posix_daemon.cpp; its Service.antt and the children of it: src/run_nt_service.cpp,
-- where Status.antt has _ServiceMainA and _ServiceControlHandlerEx as two lists of instructions.
-- System.antt: the events of the io_service as a step relation; the server's shutdown, after which
-- the program ends, is not one of them. VoteBot/Ballot.antt and its children state what it means
-- that a vote is in order. Assoc.antt, Text.antt and Common.antt are std::map and std::set,
-- std::string, and what the other files share. Server/Membership.antt states what it means that
-- the server's maps agree. Tests.antt and its children try the theorems.
--
-- Bounds and fuel. Every loop is structural recursion over a list. The depth of nested calls of
-- virtual clients is a parameter; running out of it sets undefined, and the theorems hold at each
-- depth. size_t of a vote is cut at 2 ^ 64 - 1, as istringstream does.
--
-- Parameters. SHA512, the texts of the generated version.h, the time of day, what a size_t holds
-- that is not initialized, and the values of the configuration are fields of Environment. What
-- boost::program_options parses, the contents of files, which files can be written and the
-- addresses of the virtual clients are fields of Host in Startup/Host.antt; how fork and the event
-- loop end are arguments, and so are the turns that the two threads of the Windows service take.
-- What Windows answers to the calls that install and uninstall the service is the record Windows
-- of Startup/Service.antt, which keeps of a call what it does to handles, and GetLastError is a
-- function of the calls before it; of SERVICE_STATUS, Startup/Service/Status.antt keeps the
-- members that change. Of the files that main and LogBot create and delete, Files keeps which ones
-- there are. The pidfile is taken to be none of the configuration files. A new client stands at an
-- address that is given.
--
-- Not modelled: reads that boost::asio has queued before a socket is closed, the acceptors, the
-- sockets and the TLS library, signals, what is printed and logged to the console, the dispatcher
-- of Windows services (RunAsNTService), the options of the Windows version and what main chooses
-- by them, and the PHP scripts, which are input and output around the parts above.
pub mod Common
pub mod Text
pub mod Assoc
pub mod State
pub mod Outbox
pub mod Framing
pub mod Message
pub mod Send
pub mod Server
pub mod Relay
pub mod LogBot
pub mod VoteBot
pub mod NickServ
pub mod Bots
pub mod NetworkClient
pub mod Reply
pub mod Startup
pub mod System
pub mod Tests
